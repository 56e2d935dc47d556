-- ===== src/RecvFlow/Wire.antt =====
-- The acknowledgement of src/rtmfp/flow.go as src/rtmfp/session.go writes it and as
-- src/rtmfp/chunk.go reads it.
use go_rtmfp.Prelude.{
  ℕ, ◌+◌, ◌*◌, ◌/◌, ◌^◌, ◌<◌, ◌≡◌, false, some, List, [], ◌∷◌, arith, ltb, sub64, IsU64, dec_lt,
}
use go_rtmfp.DataChunk.{Globals}
use go_rtmfp.Range.{Range}
use go_rtmfp.Range.Bounds.{range_contain_iff}
use go_rtmfp.RangeQueue.{contain}
use go_rtmfp.RangeQueue.Valid.{IsValid, IsValidFrom}
use go_rtmfp.ChunkHeap.{ChunkHeap, total, has_seq}
use go_rtmfp.RecvFlow.State.{RangeAck, RecvFlow, send_ack, available_buffers}
use go_rtmfp.RecvFlow.Order.{last-bound}
use go_rtmfp.RecvFlow.Delivery.{send_ack_total}
use go_rtmfp.RecvFlow.Userdata.{IsSettled}
use go_rtmfp.Chunk.{recv_range_ack}
use go_rtmfp.Chunk.Decode.{decode_range_ack_chunk}
use go_rtmfp.Chunk.Encode.{send_range_ack_body}
use go_rtmfp.Chunk.Acks.{decode_range_ack_chunk-send_range_ack_body}

-- A valid queue that holds nothing below a number is valid from that number on.
IsValidFrom-above :
    (lo : ℕ) (q : List Range)
    → IsValid q
    → ((p : ℕ) → p < lo → contain q p ≡ false)
    → IsValidFrom lo q
unfolding contain
IsValidFrom-above lo [] v h = tt
IsValidFrom-above lo (r ∷ q) (k, hr, v) h =
    (ground (arith, range_contain_iff r r.pos hr, h r.pos), hr, v)

module _ (H : ChunkHeap) where
  -- Nothing waits below the second number after the last in order.
  waits_above :
      (f : RecvFlow H) (p : ℕ)
      → IsSettled H f
      → p < f.last_ordered_seqnum + 2
      → total (has_seq p) (H.chunks f.unordered_recv_buf) ≡ 0
  waits_above f p v h = elim (dec_lt p (f.last_ordered_seqnum + 1)) [
    | yes k ↦ elim (dec_lt 0 p) [
      | yes pos ↦ ground (arith, v.tracked.tracked p)
      | no zero_p ↦
          let e : p ≡ 0 = omega arith in rw e (ground (arith, v.tracked.tracked 0, v.no_zero))
    ]
    | no k ↦ let e : p ≡ f.last_ordered_seqnum + 1 = omega arith in rw e v.idle
  ]

  available_word : (g : Globals) (f : RecvFlow H) → available_buffers H g f < 2 ^ 64
  unfolding available_buffers sub64
  available_word g f = ground arith

  -- The acknowledgement that a settled flow sends goes over the wire: what the session writes of it is read by
  -- the other end as a call with the same flow, the same last number, exactly the same ranges, and the free
  -- buffer in whole kilobytes. The flow's id is a 64-bit number.
  pub send_ack_wire :
      (g : Globals) (f : RecvFlow H)
      → IsSettled H f
      → IsU64 f.flowid
      → (f' : RecvFlow H) × (a : RangeAck) × (send_ack H g f ≡ some f')
        × (f'.acks ≡ a ∷ f.acks)
        × (decode_range_ack_chunk (send_range_ack_body a.flowid a.buf_avail a.cum_ack a.recv_ranges)
            ≡ recv_range_ack f.flowid
                (available_buffers H g f / 1024 * 1024)
                f.last_ordered_seqnum
                a.recv_ranges)
        × ((p : ℕ)
            → contain a.recv_ranges p ≡ ltb 0 (total (has_seq p) (H.chunks f.unordered_recv_buf)))
  send_ack_wire g f v hf =
      let (f', a, e, k, reports, s, d) = send_ack_total H g f v.tracked in
      let valid =
        IsValidFrom-above (f.last_ordered_seqnum + 2) a.recv_ranges reports.valid
          (λ p h. ground (arith, reports.exact p, waits_above f p v h)) in
      (
        f',
        a,
        e,
        k,
        rw (reports.flowid, reports.buf_avail, reports.cum_ack)
            (decode_range_ack_chunk-send_range_ack_body f.flowid (available_buffers H g f)
              f.last_ordered_seqnum a.recv_ranges hf (available_word g f)
              (omega (arith, last-bound H f v.tracked)) valid),
        reports.exact,
      )
