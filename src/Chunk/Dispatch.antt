-- ===== src/Chunk/Dispatch.antt =====
-- `decode_chunk` of src/rtmfp/chunk.go: the decoder for a chunk's type.
use go_rtmfp.Prelude.{ℕ, List, Option, none, some, ◌==◌, if◌then◌else◌, ◌>>=◌}
use go_rtmfp.Chunk.{ChunkCall, PacketContext, Runtime}
use go_rtmfp.Chunk.Decode.{
  decode_ihello_chunk, decode_fihello_chunk, decode_rhello_chunk, decode_rhello_cookie_change_chunk,
  decode_redirect_chunk, decode_iikeying_chunk, decode_rikeying_chunk, decode_userdata_chunk,
  decode_next_userdata_chunk, decode_bitmap_ack_chunk, decode_range_ack_chunk,
  decode_session_close_request_chunk, decode_session_close_ack_chunk, decode_ping_chunk,
  decode_ping_reply_chunk, decode_buffer_probe_chunk, decode_flow_exception_report_chunk,
}

-- A decoder that does not touch the context.
unfoldable pub keep : PacketContext → Option ChunkCall → Option (ChunkCall × PacketContext)
keep cxt call = call >>= (λ c. some (c, cxt))

-- A chunk of an unknown type panics.
unfoldable pub decode_chunk :
    Runtime → List ℕ → ℕ → List ℕ → PacketContext → Option (ChunkCall × PacketContext)
unfolding keep
decode_chunk env beyond chunk_type r cxt =
    if chunk_type == 0x30
    then keep cxt (decode_ihello_chunk beyond r)
    else if chunk_type == 0x0f
    then keep cxt (decode_fihello_chunk env beyond r)
    else if chunk_type == 0x70
    then keep cxt (decode_rhello_chunk beyond r)
    else if chunk_type == 0x79
    then keep cxt (decode_rhello_cookie_change_chunk beyond r)
    else if chunk_type == 0x71
    then keep cxt (decode_redirect_chunk env beyond r)
    else if chunk_type == 0x38
    then keep cxt (decode_iikeying_chunk beyond r)
    else if chunk_type == 0x78
    then keep cxt (decode_rikeying_chunk beyond r)
    else if chunk_type == 0x10
    then decode_userdata_chunk env r cxt
    else if chunk_type == 0x11
    then decode_next_userdata_chunk env r cxt
    else if chunk_type == 0x50
    then some (decode_bitmap_ack_chunk r, cxt)
    else if chunk_type == 0x51
    then some (decode_range_ack_chunk r, cxt)
    else if chunk_type == 0x0c
    then some (decode_session_close_request_chunk r, cxt)
    else if chunk_type == 0x4c
    then some (decode_session_close_ack_chunk r, cxt)
    else if chunk_type == 0x01
    then some (decode_ping_chunk r, cxt)
    else if chunk_type == 0x41
    then some (decode_ping_reply_chunk r, cxt)
    else if chunk_type == 0x18
    then some (decode_buffer_probe_chunk r, cxt)
    else if chunk_type == 0x5e
    then some (decode_flow_exception_report_chunk r, cxt)
    else none
