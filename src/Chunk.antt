-- ===== src/Chunk.antt =====
-- The chunks of src/rtmfp/chunk.go: the calls that a chunk's decoding makes on its handler.
-- `srcAddr`, which every method takes and passes on unchanged, is left out.
pub mod Options
pub mod Decode
pub mod Encode
pub mod Dispatch
pub mod Acks
pub mod Data
pub mod Fields
use go_rtmfp.Prelude.{ℕ, Bool, List, Option}
use go_rtmfp.Range.{Range}

-- The methods of `chunk_handler`, with their arguments. A nil slice of options is `none`.
pub data ChunkCall : Type 0 where
  recv_ihello : (edp_type : ℕ) (edp_data tag : List ℕ) → ChunkCall
  recv_fihello : (edp_type : ℕ) (edp_data reply_address tag : List ℕ) → ChunkCall
  recv_rhello : (tag_echo cookie resp_cert : List ℕ) → ChunkCall
  recv_rhello_cookie_change : (old_cookie new_cookie : List ℕ) → ChunkCall
  recv_redirect : (tag_echo : List ℕ) (destinations : List (List ℕ)) → ChunkCall
  recv_iikeying : (init_sid : ℕ) (cookie_echo init_cert init_nonce : List ℕ) → ChunkCall
  recv_rikeying : (resp_sid : ℕ) (resp_nonce : List ℕ) → ChunkCall
  recv_ping : (msg : List ℕ) → ChunkCall
  recv_ping_reply : (msg_echo : List ℕ) → ChunkCall
  recv_userdata :
      (fragment_control flowid sequence_number fsn_offset : ℕ) (body : List ℕ)
      (options : Option (List ℕ)) (abandon final : Bool)
      → ChunkCall
  recv_range_ack : (flowid buf_avail cum_ack : ℕ) (recv_ranges : List Range) → ChunkCall
  recv_buffer_probe : (flowid : ℕ) → ChunkCall
  recv_flow_exception_report : (flowid exception : ℕ) → ChunkCall
  recv_session_close_request : ChunkCall
  recv_session_close_ack : ChunkCall

-- `packet_context` of src/rtmfp/packet.go. Its only maker passes a pointer that is not nil.
pub record PacketContext : Type 0 where
  pub last_flowid : ℕ
  pub last_seqnum : ℕ
  pub last_fsn_offset : ℕ

-- What the decoders take from outside the repository: the size from which `make([]byte, n)` panics, and
-- `UDPAddr.String` on the bytes of an address and its port.
pub record Runtime : Type 0 where
  pub max_alloc : ℕ
  pub addr_string : List ℕ → ℕ → List ℕ
