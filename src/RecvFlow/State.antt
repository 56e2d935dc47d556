-- ===== src/RecvFlow/State.antt =====
-- The state of `recv_flow` (src/rtmfp/flow.go), its acknowledgements and `read_message`.
use go_rtmfp.Prelude.{
  ℕ, ◌+◌, ◌/◌, Bool, true, false, Option, none, some, List, [], ◌∷◌, ◌++◌, length, leb, ◌==◌, ◌>>=◌,
  if◌then◌else◌, add64, sub64, ◌||◌,
}
use go_rtmfp.DataChunk.{DataChunk, chunk_len, fc_whole, fc_end, Globals}
use go_rtmfp.Range.{Range, make_range}
use go_rtmfp.RangeQueue.{add_range, to_array}
use go_rtmfp.ChunkHeap.{ChunkHeap}

-- The arguments of one call of `session.send_range_ack`.
pub record RangeAck : Type 0 where
  pub flowid : ℕ
  pub buf_avail : ℕ
  pub cum_ack : ℕ
  pub recv_ranges : List Range

module _ (H : ChunkHeap) where
  -- `delack_alarm` is whether there is one; `signals` counts the calls of `recv_cond.Signal`; `acks`
  -- is what went to the session, latest first.
  pub record RecvFlow : Type 0 where
    pub flowid : ℕ
    pub ordered_recv_buf : List DataChunk
    pub unordered_recv_buf : H.Heap
    pub ordered_recved_bytes : ℕ
    pub unordered_recv_buf_bytes : ℕ
    pub recv_ranges : List Range
    pub rx_data_packets : ℕ
    pub prev_rwnd : ℕ
    pub last_ordered_seqnum : ℕ
    pub delack_alarm : Bool
    pub signals : ℕ
    pub closed : Bool
    pub acks : List RangeAck

  unfoldable pub open_flow : RecvFlow → RecvFlow
  open_flow f = record f { ordered_recv_buf = []; unordered_recv_buf = H.create }

  unfoldable pub close : RecvFlow → RecvFlow
  close f = record f { closed = true; signals = f.signals + 1 }

  unfoldable pub available_buffers : Globals → RecvFlow → ℕ
  available_buffers g f =
      let occupied = add64 f.ordered_recved_bytes f.unordered_recv_buf_bytes in
      if leb g.max_recv_buf_size occupied then 0 else sub64 g.max_recv_buf_size occupied

-- The ranges that `send_ack` reports, over the heap's slice.
unfoldable pub report_loop : List Range → List DataChunk → Option (List Range)
report_loop ranges [] = some ranges
report_loop ranges (c ∷ q) =
    add_range ranges (make_range c.seq_num (add64 c.seq_num 1)) >>= λ ranges'. report_loop ranges' q

-- The search of `read_message`: whether some chunk ends a message.
unfoldable pub has_end : List DataChunk → Bool
has_end [] = false
has_end (c ∷ q) = if c.frag_ctrl == fc_whole || c.frag_ctrl == fc_end then true else has_end q

-- Its second loop: the bytes up to the first chunk that ends a message, what stays in the buffer,
-- and the count of the buffered bytes.
unfoldable pub take_message : List DataChunk → ℕ → List ℕ × List DataChunk × ℕ
take_message [] bytes = ([], [], bytes)
take_message (c ∷ q) bytes =
    let left = sub64 bytes (chunk_len c) in
    let rest = take_message q left in
    if c.frag_ctrl == fc_whole || c.frag_ctrl == fc_end
    then (c.payload, q, left)
    else (c.payload ++ rest.0, rest.1, rest.2)

module _ (H : ChunkHeap) where
  -- The acknowledgement of the state of a flow, with the ranges that wait.
  abbrev pub ack_of : Globals → RecvFlow H → List Range → RangeAck
  ack_of g f ranges = record {
    flowid = f.flowid;
    buf_avail = available_buffers H g f;
    cum_ack = f.last_ordered_seqnum;
    recv_ranges = to_array ranges;
  }

  abbrev pub after_ack : Globals → RecvFlow H → List Range → RecvFlow H
  after_ack g f ranges = record f {
    rx_data_packets = 0;
    prev_rwnd = available_buffers H g f / 1024;
    delack_alarm = false;
    acks = ack_of g f ranges ∷ f.acks;
  }

  unfoldable pub send_ack : Globals → RecvFlow H → Option (RecvFlow H)
  unfolding report_loop available_buffers to_array
  send_ack g f =
      report_loop [] (H.chunks f.unordered_recv_buf) >>= λ ranges. some (after_ack g f ranges)

  -- `on_buffer_probe` answers by an acknowledgement.
  unfoldable pub on_buffer_probe : Globals → RecvFlow H → Option (RecvFlow H)
  unfolding send_ack
  on_buffer_probe g f = send_ack g f

  -- The message, if the buffer holds a whole one; `none` is Go's `nil`, which `Bytes` also returns for
  -- a buffer that no byte was written to.
  unfoldable pub read_message : RecvFlow H → Option (List ℕ) × RecvFlow H
  unfolding has_end take_message
  read_message f =
      let (msg, q, bytes) = take_message f.ordered_recv_buf f.ordered_recved_bytes in
      if has_end f.ordered_recv_buf
      then (
        if length msg == 0 then none else some msg,
        record f { ordered_recv_buf = q; ordered_recved_bytes = bytes },
      )
      else (none, f)
