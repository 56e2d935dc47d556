-- ===== src/Chunk/Decode.antt =====
-- The decoders of src/rtmfp/chunk.go, one for each type of chunk. Each returns the call that it makes
-- on its handler; `none` is a panic. `beyond` is the buffer's capacity past its length.
use go_rtmfp.Prelude.{
  ℕ, zero, suc, ◌/◌, List, [], ◌∷◌, Option, none, some, ltb, if◌then◌else◌, ◌>>=◌, length, bit_and,
  add64, mul64,
}
use go_rtmfp.Vlu.{decode_vlu}
use go_rtmfp.Range.{Range, make_range, range_end}
use go_rtmfp.Buffer.{read_u8, read_u32, take_field}
use go_rtmfp.Chunk.{
  ChunkCall, recv_ihello, recv_fihello, recv_rhello, recv_rhello_cookie_change, recv_redirect,
  recv_iikeying, recv_rikeying, recv_ping, recv_ping_reply, recv_userdata, recv_range_ack,
  recv_buffer_probe, recv_flow_exception_report, recv_session_close_request, recv_session_close_ack,
  PacketContext, Runtime,
}
use go_rtmfp.Chunk.Options.{
  read_options, decode_endpoint_discriminator, decode_address, addresses_loop,
}

-- A length as a VLU and a field of that length.
unfoldable pub take_prefixed : List ℕ → List ℕ → Option (List ℕ × List ℕ)
unfolding take_field
take_prefixed beyond r = let n = decode_vlu r in take_field beyond n.0 n.1

unfoldable pub decode_ihello_chunk : List ℕ → List ℕ → Option ChunkCall
unfolding decode_endpoint_discriminator
decode_ihello_chunk beyond r =
    decode_endpoint_discriminator beyond r >>= (λ edp. some (recv_ihello edp.0 edp.1 edp.2))

unfoldable pub decode_fihello_chunk : Runtime → List ℕ → List ℕ → Option ChunkCall
unfolding decode_endpoint_discriminator decode_address
decode_fihello_chunk env beyond r = decode_endpoint_discriminator beyond r >>= (λ edp.
    decode_address env beyond edp.2 >>= (λ reply. some (recv_fihello edp.0 edp.1 reply.0 reply.1)))

unfoldable pub decode_rhello_chunk : List ℕ → List ℕ → Option ChunkCall
unfolding take_prefixed
decode_rhello_chunk beyond r = take_prefixed beyond r >>= (λ tag.
    take_prefixed beyond tag.1 >>= (λ cookie. some (recv_rhello tag.0 cookie.0 cookie.1)))

unfoldable pub decode_rhello_cookie_change_chunk : List ℕ → List ℕ → Option ChunkCall
unfolding take_prefixed
decode_rhello_cookie_change_chunk beyond r =
    take_prefixed beyond r >>= (λ old. some (recv_rhello_cookie_change old.0 old.1))

unfoldable pub decode_redirect_chunk : Runtime → List ℕ → List ℕ → Option ChunkCall
unfolding take_prefixed addresses_loop
decode_redirect_chunk env beyond r = take_prefixed beyond r >>= (λ tag.
    addresses_loop env beyond (length tag.1) tag.1
    >>= (λ destinations. some (recv_redirect tag.0 destinations)))

unfoldable pub decode_iikeying_chunk : List ℕ → List ℕ → Option ChunkCall
unfolding take_prefixed
decode_iikeying_chunk beyond r =
    let sid = read_u32 r in
    take_prefixed beyond sid.1 >>= (λ cookie. take_prefixed beyond cookie.1 >>= (λ cert.
      take_prefixed beyond cert.1
      >>= (λ nonce. some (recv_iikeying sid.0 cookie.0 cert.0 nonce.0))))

unfoldable pub decode_rikeying_chunk : List ℕ → List ℕ → Option ChunkCall
unfolding take_prefixed
decode_rikeying_chunk beyond r =
    let sid = read_u32 r in
    take_prefixed beyond sid.1 >>= (λ nonce. some (recv_rikeying sid.0 nonce.0))

-- The handler's call, by the flags and the context.
unfoldable pub userdata_call : ℕ → PacketContext → Option (List ℕ) → List ℕ → ChunkCall
userdata_call flags cxt options body =
    recv_userdata (bit_and (flags / 16) 0x03) cxt.last_flowid cxt.last_seqnum cxt.last_fsn_offset
      body options (ltb 0 (bit_and flags 0x02)) (ltb 0 (bit_and flags 0x01))

-- The options, read where the flags announce them, and the call with what is left as data.
unfoldable pub finish_userdata :
    Runtime → ℕ → PacketContext → List ℕ → Option (ChunkCall × PacketContext)
unfolding userdata_call
finish_userdata env flags cxt r =
    if ltb 0 (bit_and flags 0x80)
    then read_options env r
      >>= (λ options. some (userdata_call flags cxt (some options.0) options.1, cxt))
    else some (userdata_call flags cxt none r, cxt)

unfoldable pub decode_userdata_chunk :
    Runtime → List ℕ → PacketContext → Option (ChunkCall × PacketContext)
unfolding finish_userdata
decode_userdata_chunk env r cxt =
    let flags = read_u8 r in
    let flowid = decode_vlu flags.1 in
    let sequence_number = decode_vlu flowid.1 in
    let fsn_offset = decode_vlu sequence_number.1 in
    finish_userdata env flags.0
      (record {
        last_flowid = flowid.0;
        last_seqnum = sequence_number.0;
        last_fsn_offset = fsn_offset.0;
      })
      fsn_offset.1

unfoldable pub decode_next_userdata_chunk :
    Runtime → List ℕ → PacketContext → Option (ChunkCall × PacketContext)
unfolding finish_userdata
decode_next_userdata_chunk env r cxt =
    let flags = read_u8 r in
    finish_userdata env flags.0
      (record {
        last_flowid = cxt.last_flowid;
        last_seqnum = add64 cxt.last_seqnum 1;
        last_fsn_offset = add64 cxt.last_fsn_offset 1;
      })
      flags.1

-- The bitmap is not decoded: the handler sees no ranges.
unfoldable pub decode_bitmap_ack_chunk : List ℕ → ChunkCall
decode_bitmap_ack_chunk r =
    let flowid = decode_vlu r in
    let buf_avail = decode_vlu flowid.1 in
    let cum_ack = decode_vlu buf_avail.1 in
    recv_range_ack flowid.0 (mul64 buf_avail.0 1024) cum_ack.0 []

-- The loop of `decode_range_ack_chunk`, on fuel: a round takes at least one byte.
unfoldable pub ranges_loop : ℕ → ℕ → List ℕ → List Range
unfolding make_range range_end
ranges_loop zero ack_cursor r = []
ranges_loop (suc fuel) ack_cursor [] = []
ranges_loop (suc fuel) ack_cursor (b ∷ r) =
    let hole = decode_vlu (b ∷ r) in
    let size = decode_vlu hole.1 in
    let pos = add64 (add64 ack_cursor hole.0) 1 in
    let received = make_range pos (add64 pos (add64 size.0 1)) in
    received ∷ ranges_loop fuel (range_end received) size.1

unfoldable pub decode_range_ack_chunk : List ℕ → ChunkCall
unfolding ranges_loop
decode_range_ack_chunk r =
    let flowid = decode_vlu r in
    let buf_avail = decode_vlu flowid.1 in
    let cum_ack = decode_vlu buf_avail.1 in
    recv_range_ack flowid.0 (mul64 buf_avail.0 1024) cum_ack.0
      (ranges_loop (length cum_ack.1) (add64 cum_ack.0 1) cum_ack.1)

unfoldable pub decode_session_close_request_chunk : List ℕ → ChunkCall
decode_session_close_request_chunk r = recv_session_close_request

unfoldable pub decode_session_close_ack_chunk : List ℕ → ChunkCall
decode_session_close_ack_chunk r = recv_session_close_ack

unfoldable pub decode_ping_chunk : List ℕ → ChunkCall
decode_ping_chunk r = recv_ping r

unfoldable pub decode_ping_reply_chunk : List ℕ → ChunkCall
decode_ping_reply_chunk r = recv_ping_reply r

unfoldable pub decode_buffer_probe_chunk : List ℕ → ChunkCall
decode_buffer_probe_chunk r = recv_buffer_probe (decode_vlu r).0

unfoldable pub decode_flow_exception_report_chunk : List ℕ → ChunkCall
decode_flow_exception_report_chunk r =
    let flowid = decode_vlu r in recv_flow_exception_report flowid.0 (decode_vlu flowid.1).0
