-- ===== src/RecvFlow/Delivery.antt =====
-- `on_userdata` and `send_ack` of src/rtmfp/flow.go.
use go_rtmfp.Prelude.{
  ℕ, ◌+◌, ◌^◌, ◌<◌, ◌≡◌, refl, ap, false, ◌||◌, some, List, [], ◌∷◌, arith, All, ltb, ◌==◌, add64,
  sub64,
}
use go_rtmfp.DataChunk.{DataChunk, Globals}
use go_rtmfp.Range.{Range, IsProper, make_range, range_contain}
use go_rtmfp.RangeQueue.{contain, to_array}
use go_rtmfp.RangeQueue.Valid.{IsValid}
use go_rtmfp.RangeQueue.Add.{add_range-Adds}
use go_rtmfp.RangeQueue.Intersect.{Holds}
use go_rtmfp.ChunkHeap.{ChunkHeap, total, has_seq}
use go_rtmfp.RecvFlow.State.{
  RecvFlow, RangeAck, available_buffers, ack_of, after_ack, report_loop, send_ack,
}
use go_rtmfp.RecvFlow.Order.{IsTracked, contain-bound}

-- The range of one number.
abbrev pub single : ℕ → Range
single p = make_range p (add64 p 1)

pub single-IsProper : (p : ℕ) → p + 1 < 2 ^ 63 → IsProper (single p)
unfolding make_range add64 sub64
single-IsProper p h = omega arith

pub range_contain-single : (p n : ℕ) → p + 1 < 2 ^ 63 → range_contain (single p) n ≡ (n == p)
unfolding make_range add64 sub64 range_contain
range_contain-single p n h = ground arith

abbrev IsSmall : DataChunk → Type 0
IsSmall c = c.seq_num + 1 < 2 ^ 63

-- The ranges of an acknowledgement hold the numbers of the chunks, and no others.
report_loop-Holds :
    (q : List DataChunk) (ranges : List Range)
    → IsValid ranges
    → All IsSmall q
    → Holds (λ p. ltb 0 (total (has_seq p) q) || contain ranges p) (report_loop ranges q)
unfolding report_loop
report_loop-Holds [] ranges v h = (ranges, refl, v, λ p. refl)
report_loop-Holds (c ∷ q) ranges v (hc, h) =
    let (r, e, v', holds) =
      add_range-Adds ranges (single c.seq_num) v (single-IsProper c.seq_num hc) in
    let (r', e', v'', holds') = report_loop-Holds q r v' h in
    (
      r',
      rw (e, report_loop) e',
      v'',
      λ p. ground (arith, holds p, holds' p, range_contain-single c.seq_num p hc),
    )

IsSmall-chunks :
    (q : List DataChunk) → ((p : ℕ) → 0 < total (has_seq p) q → p + 1 < 2 ^ 63) → All IsSmall q
IsSmall-chunks [] h = tt
IsSmall-chunks (c ∷ q) h =
    (h c.seq_num (ground arith), IsSmall-chunks q (λ p k. h p (ground arith)))

copy : (q : List Range) → to_array q ≡ q
unfolding to_array
copy [] = refl
copy (r ∷ q) = ap (◌∷◌ r) (copy q)

contain-nil : (p : ℕ) → contain [] p ≡ false
unfolding contain
contain-nil p = refl

module _ (H : ChunkHeap) where
  -- A report of a flow's state: what was delivered, and exactly the numbers that wait in the heap.
  pub record Reports (g : Globals) (f : RecvFlow H) (a : RangeAck) : Type 0 where
    pub cum_ack : a.cum_ack ≡ f.last_ordered_seqnum
    pub flowid : a.flowid ≡ f.flowid
    pub buf_avail : a.buf_avail ≡ available_buffers H g f
    pub valid : IsValid a.recv_ranges
    pub exact :
        (p : ℕ)
        → contain a.recv_ranges p ≡ ltb 0 (total (has_seq p) (H.chunks f.unordered_recv_buf))

  -- `f'` differs from `f` only in its acknowledgements, alarms and counts of events.
  pub record Same (f f' : RecvFlow H) : Type 0 where
    pub ordered : f'.ordered_recv_buf ≡ f.ordered_recv_buf
    pub unordered : f'.unordered_recv_buf ≡ f.unordered_recv_buf
    pub ordered_bytes : f'.ordered_recved_bytes ≡ f.ordered_recved_bytes
    pub unordered_bytes : f'.unordered_recv_buf_bytes ≡ f.unordered_recv_buf_bytes
    pub ranges : f'.recv_ranges ≡ f.recv_ranges
    pub last : f'.last_ordered_seqnum ≡ f.last_ordered_seqnum

  Same-ack : (g : Globals) (f : RecvFlow H) (r : List Range) → Same f (after_ack H g f r)
  Same-ack g f r = record {
    ordered = refl;
    unordered = refl;
    ordered_bytes = refl;
    unordered_bytes = refl;
    ranges = refl;
    last = refl;
  }

  -- `send_ack` never panics on a tracked flow. It sends one acknowledgement, of the last number in
  -- order and of exactly the numbers that wait in the heap, and leaves what was received alone.
  pub send_ack_total :
      (g : Globals) (f : RecvFlow H)
      → IsTracked H f
      → (f' : RecvFlow H) × (a : RangeAck) × (send_ack H g f ≡ some f')
        × (f'.acks ≡ a ∷ f.acks)
        × Reports g f a
        × Same f f'
        × (f'.delack_alarm ≡ false)
  unfolding send_ack
  send_ack_total g f v =
      let small =
        IsSmall-chunks (H.chunks f.unordered_recv_buf)
          (λ p k. contain-bound 0 f.recv_ranges p v.valid (ground (arith, v.tracked p))) in
      let (r, e, valid, holds) = report_loop-Holds (H.chunks f.unordered_recv_buf) [] tt small in
      (
        after_ack H g f r,
        ack_of H g f r,
        rw e,
        refl,
        record {
          cum_ack = refl;
          flowid = refl;
          buf_avail = refl;
          valid = rw copy valid;
          exact = λ p. rw copy (ground (arith, holds p, contain-nil p));
        },
        Same-ack g f r,
        refl,
      )
