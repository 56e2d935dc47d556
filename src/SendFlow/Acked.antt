-- ===== src/SendFlow/Acked.antt =====
-- What an acknowledgement removes from the queue (src/rtmfp/flow.go).
use go_rtmfp.Prelude.{
  ℕ, ◌+◌, ◌<◌, ◌≡◌, refl, ap, ◌∙◌, ◌^◌, Bool, true, false, ◌||◌, ◌&&◌, some, List, [], ◌∷◌, arith,
  if◌then◌else◌, All, ltb, add64, sub64, inl, inr, Bool-cases,
}
use go_rtmfp.DataChunk.{DataChunk, Globals}
use go_rtmfp.Range.{Range, IsProper, make_range, range_contain}
use go_rtmfp.RangeQueue.{contain, range_queue_from_array}
use go_rtmfp.RangeQueue.Valid.{IsValid}
use go_rtmfp.RangeQueue.Add.{add_range-Adds}
use go_rtmfp.RangeQueue.Intersect.{add_range_queue-Holds}
use go_rtmfp.SendFlow.State.{SendFlow, chunk_loss}
use go_rtmfp.SendFlow.Congestion.{update_congestion_wnd}
use go_rtmfp.SendFlow.Transmit.{try_chunk, try_loop, try_send, front_seq}
use go_rtmfp.SendFlow.Ack.{
  AckScan, start_scan, ack_chunk, ack_loop, nak_loop, finish_ack, apply_ack, on_range_ack,
}
use go_rtmfp.SendFlow.Inflight.{IsCounted, apply_ack-IsCounted}

-- The sequence numbers of a queue, in order.
abbrev pub seqs : List DataChunk → List ℕ
seqs [] = []
seqs (c ∷ q) = c.seq_num ∷ seqs q

-- The numbers that the ranges do not hold, in order.
abbrev pub unacked : List Range → List ℕ → List ℕ
unacked ranges [] = []
unacked ranges (s ∷ l) = if contain ranges s then unacked ranges l else s ∷ unacked ranges l

try_loop-seqs :
    (q : List DataChunk) (front : ℕ) (f : SendFlow) → seqs (try_loop q front f).0 ≡ seqs q
unfolding try_loop try_chunk
try_loop-seqs [] front f = refl
try_loop-seqs (c ∷ q) front f = ground (arith, try_loop-seqs q front (try_chunk f front c).1)

-- A loop over the queue leaves the acknowledged ranges alone.
try_loop-ack_ranges :
    (q : List DataChunk) (front : ℕ) (f : SendFlow)
    → (try_loop q front f).1.ack_ranges ≡ f.ack_ranges
unfolding try_loop try_chunk
try_loop-ack_ranges [] front f = refl
try_loop-ack_ranges (c ∷ q) front f =
    ground (arith, try_loop-ack_ranges q front (try_chunk f front c).1)

pub try_send-seqs : (f : SendFlow) → seqs (try_send f).send_queue ≡ seqs f.send_queue
unfolding try_send
try_send-seqs f = try_loop-seqs f.send_queue (front_seq f.send_queue) f

try_send-ack_ranges : (f : SendFlow) → (try_send f).ack_ranges ≡ f.ack_ranges
unfolding try_send
try_send-ack_ranges f = try_loop-ack_ranges f.send_queue (front_seq f.send_queue) f

nak_loop-seqs :
    (max_tsn : ℕ) (q : List DataChunk) (f : SendFlow) (any_nak any_loss : Bool)
    → (seqs (nak_loop max_tsn q f any_nak any_loss).0 ≡ seqs q)
      × ((nak_loop max_tsn q f any_nak any_loss).1.ack_ranges ≡ f.ack_ranges)
unfolding nak_loop
nak_loop-seqs max_tsn [] f any_nak any_loss = (refl, refl)
nak_loop-seqs max_tsn (c ∷ q) f any_nak any_loss = ground (
  arith,
  nak_loop-seqs max_tsn q f any_nak any_loss,
  nak_loop-seqs max_tsn q f true any_loss,
  nak_loop-seqs max_tsn q (chunk_loss f c) true true,
)

ack_loop-seqs :
    (ranges : List Range) (q : List DataChunk) (s : AckScan)
    → seqs (ack_loop ranges q s).0 ≡ unacked ranges (seqs q)
unfolding ack_loop
ack_loop-seqs ranges [] s = refl
ack_loop-seqs ranges (c ∷ q) s =
    ground (arith, ack_loop-seqs ranges q (ack_chunk s c), ack_loop-seqs ranges q s)

-- What an operation leaves of the queue's numbers, and the ranges that it leaves.
abbrev Leaves : SendFlow → List ℕ → List Range → Type 0
Leaves f l ranges = (seqs f.send_queue ≡ l) × (f.ack_ranges ≡ ranges)

try_send-Leaves :
    (f : SendFlow) (l : List ℕ) (ranges : List Range)
    → Leaves f l ranges
    → Leaves (try_send f) l ranges
try_send-Leaves f l ranges (h, k) = (try_send-seqs f ∙ h, try_send-ack_ranges f ∙ k)

update_congestion_wnd-Leaves :
    (g : Globals) (f : SendFlow) (any_loss any_ack any_nak : Bool) (acked_bytes pre : ℕ)
    (l : List ℕ) (ranges : List Range)
    → Leaves f l ranges
    → Leaves (update_congestion_wnd g f any_loss any_ack any_nak acked_bytes pre) l ranges
unfolding update_congestion_wnd
update_congestion_wnd-Leaves g f any_loss any_ack any_nak acked_bytes pre l ranges h = ground arith

finish_ack-Leaves :
    (g : Globals) (f : SendFlow) (buf_avail max_tsn acked_bytes pre : ℕ)
    → Leaves (finish_ack g f buf_avail max_tsn acked_bytes pre) (seqs f.send_queue) f.ack_ranges
unfolding finish_ack
finish_ack-Leaves g f buf_avail max_tsn acked_bytes pre =
    try_send-Leaves _ (seqs f.send_queue) f.ack_ranges (
      update_congestion_wnd-Leaves g _ _ true _ acked_bytes pre (seqs f.send_queue) f.ack_ranges
        (nak_loop-seqs max_tsn f.send_queue f false false))

apply_ack-Leaves :
    (g : Globals) (f : SendFlow) (buf_avail : ℕ) (ranges : List Range)
    → Leaves (apply_ack g f buf_avail ranges) (unacked ranges (seqs f.send_queue)) ranges
unfolding apply_ack
apply_ack-Leaves g f buf_avail ranges =
    let removed = ack_loop-seqs ranges f.send_queue (start_scan f) in
    elim (Bool-cases (
      if ltb 0 buf_avail && f.bufprob_ticker
      then true
      else (ack_loop ranges f.send_queue (start_scan f)).1.valid)) [
        | inl valid ↦
            rw valid (let (h, k) = finish_ack-Leaves g _ buf_avail _ _ _ in (h ∙ removed, k))
        | inr delayed ↦ rw delayed (removed, refl)
      ]

cum-IsProper : (cum_ack : ℕ) → cum_ack + 1 < 2 ^ 63 → IsProper (make_range 0 (add64 cum_ack 1))
unfolding make_range add64 sub64
cum-IsProper cum_ack h = omega arith

contain-cum :
    (cum_ack p : ℕ)
    → cum_ack + 1 < 2 ^ 63
    → range_contain (make_range 0 (add64 cum_ack 1)) p ≡ ltb p (cum_ack + 1)
unfolding make_range add64 sub64 range_contain
contain-cum cum_ack p h = ground arith

copy : (ranges : List Range) → range_queue_from_array ranges ≡ ranges
unfolding range_queue_from_array
copy [] = refl
copy (r ∷ ranges) = ap (◌∷◌ r) (copy ranges)

-- The positions that a flow has acknowledged after `on_range_ack`.
abbrev pub acked_after : SendFlow → ℕ → List Range → ℕ → Bool
acked_after f cum_ack recv_ranges p =
    contain recv_ranges p || (ltb p (cum_ack + 1) || contain f.ack_ranges p)

-- On a flow with valid ranges and a right count, for proper ranges reported and a number below
-- 2 ^ 63 - 1, an acknowledgement never panics. It leaves the ranges valid and holding what they
-- held, what is up to `cum_ack` and what is reported. The queue keeps, in order, the chunks that
-- these ranges do not hold, and no others. The count of bytes in flight stays right.
pub on_range_ack_total :
    (g : Globals) (f : SendFlow) (buf_avail cum_ack : ℕ) (recv_ranges : List Range)
    → IsCounted f
    → IsValid f.ack_ranges
    → All IsProper recv_ranges
    → cum_ack + 1 < 2 ^ 63
    → (f' : SendFlow) × (on_range_ack g f buf_avail cum_ack recv_ranges ≡ some f')
      × IsCounted f'
      × IsValid f'.ack_ranges
      × ((p : ℕ) → contain f'.ack_ranges p ≡ acked_after f cum_ack recv_ranges p)
      × (seqs f'.send_queue ≡ unacked f'.ack_ranges (seqs f.send_queue))
unfolding on_range_ack
on_range_ack_total g f buf_avail cum_ack recv_ranges h v hr small =
    let cum = make_range 0 (add64 cum_ack 1) in
    let (q, e, v', holds) = add_range-Adds f.ack_ranges cum v (cum-IsProper cum_ack small) in
    let (q', e', v'', holds') = add_range_queue-Holds recv_ranges q v' hr in
    let (left, kept) = apply_ack-Leaves g f buf_avail q' in
    (
      apply_ack g f buf_avail q',
      rw (e, copy recv_ranges, e'),
      apply_ack-IsCounted g f buf_avail q' h,
      rw kept v'',
      λ p. rw kept (ground (arith, holds p, holds' p, contain-cum cum_ack p small)),
      rw kept left,
    )
