-- ===== src/RecvFlow/Receive.antt =====
-- `on_userdata` of src/rtmfp/flow.go.
use go_rtmfp.Prelude.{
  ℕ, zero, suc, ◌+◌, Bool, true, Option, none, some, List, [], ◌∷◌, ◌++◌, leb, ltb, ◌==◌, ◌>>=◌,
  if◌then◌else◌, add64, sub64, ◌||◌, length,
}
use go_rtmfp.DataChunk.{DataChunk, chunk_len, new_chunk, Globals}
use go_rtmfp.Range.{Range, make_range}
use go_rtmfp.RangeQueue.{add_range, contain}
use go_rtmfp.ChunkHeap.{ChunkHeap}
use go_rtmfp.RecvFlow.State.{RecvFlow, send_ack}

module _ (H : ChunkHeap) where
  -- The least chunk `c` moves to the ordered buffer, and `h` is the heap without it.
  unfoldable pub move_chunk : RecvFlow H → DataChunk → H.Heap → RecvFlow H
  move_chunk f c h = record f {
    unordered_recv_buf = h;
    ordered_recv_buf = f.ordered_recv_buf ++ c ∷ [];
    ordered_recved_bytes = add64 f.ordered_recved_bytes (chunk_len c);
    unordered_recv_buf_bytes = sub64 f.unordered_recv_buf_bytes (chunk_len c);
    last_ordered_seqnum = add64 f.last_ordered_seqnum 1;
  }

  -- The loop that orders chunks. Each round but the last takes a chunk off the heap.
  unfoldable pub order_loop : ℕ → RecvFlow H → RecvFlow H
  unfolding move_chunk
  order_loop zero f = f
  order_loop (suc fuel) f = elim (H.pop f.unordered_recv_buf) [
    | none ↦ f
    | some (c, h) ↦
        let rest = order_loop fuel (move_chunk f c h) in
        if c.seq_num == add64 f.last_ordered_seqnum 1
        then rest
        else record f { unordered_recv_buf = H.push h c }
  ]

  -- The new chunk enters the heap and its count.
  unfoldable pub store_chunk : RecvFlow H → List Range → DataChunk → RecvFlow H
  store_chunk f ranges c = record f {
    recv_ranges = ranges;
    unordered_recv_buf = H.push f.unordered_recv_buf c;
    unordered_recv_buf_bytes = add64 f.unordered_recv_buf_bytes (chunk_len c);
  }

  -- The loop with rounds enough for every chunk of the heap.
  unfoldable pub order_chunks : RecvFlow H → RecvFlow H
  unfolding order_loop
  order_chunks f = order_loop (length (H.chunks f.unordered_recv_buf)) f

  -- `Signal`, and then the acknowledgement now or by the alarm.
  unfoldable pub acknowledge : Globals → Bool → RecvFlow H → Option (RecvFlow H)
  unfolding send_ack
  acknowledge g ack_now f =
      let f' = record f { signals = f.signals + 1 } in
      if ack_now then send_ack H g f' else some (record f' { delack_alarm = true })

  -- `ack_now`, with the packet counted: every other packet, a small window last told, or a hole.
  unfoldable pub acks_now : RecvFlow H → Bool
  acks_now f = leb 2 f.rx_data_packets || (ltb f.prev_rwnd 2 || ltb 1 (length f.recv_ranges))

  -- The source takes `fsnOffset`, `options`, `abandon` and `final` too, and does not read them.
  -- `none` is a panic of `AddRange`.
  unfoldable pub on_userdata : Globals → RecvFlow H → ℕ → ℕ → List ℕ → Option (RecvFlow H)
  unfolding acks_now store_chunk order_chunks acknowledge
  on_userdata g f ctrl seq buf =
      let f' = record f { rx_data_packets = f.rx_data_packets + 1 } in
      if contain f.recv_ranges seq
      then send_ack H g f'
      else (add_range f.recv_ranges (make_range seq (add64 seq 1)) >>= λ ranges.
          acknowledge g (acks_now f')
            (order_chunks (store_chunk f' ranges (new_chunk ctrl seq buf))))
