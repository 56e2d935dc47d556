-- ===== src/SendFlow/Budget.antt =====
-- What `try_send` of src/rtmfp/flow.go sends: as much as the windows and the burst limit allow.
use go_rtmfp.Prelude.{
  ℕ, ◌+◌, ◌^◌, ◌-◌, ◌≤◌, ◌<◌, ◌≡◌, ◌⊎◌, inl, inr, true, false, ◌&&◌, List, [], ◌∷◌, arith, All, min,
  max, add64, min_uint, Bool-cases, length,
}
use go_rtmfp.DataChunk.{DataChunk, smss}
use go_rtmfp.SendFlow.State.{SendFlow, send_buget, burst_avoid}
use go_rtmfp.SendFlow.Transmit.{try_chunk, try_loop, try_send, front_seq}

abbrev InFlight : DataChunk → Type 0
InFlight c = c.in_flight ≡ true

-- No chunk is larger than a segment.
abbrev pub IsSegment : DataChunk → Type 0
IsSegment c = length c.payload ≤ smss

-- Nothing more may go out.
abbrev pub Exhausted : SendFlow → List DataChunk → Type 0
Exhausted f q = (send_buget f ≡ false) ⊎ (burst_avoid f ≡ false) ⊎ All InFlight q

try_chunk-InFlight : (f : SendFlow) (front : ℕ) (c : DataChunk) → InFlight (try_chunk f front c).0
unfolding try_chunk
try_chunk-InFlight f front c = ground arith

Exhausted-cons :
    (f : SendFlow) (c : DataChunk) (q : List DataChunk)
    → InFlight c
    → Exhausted f q
    → Exhausted f (c ∷ q)
Exhausted-cons f c q h (inl spent) = inl spent
Exhausted-cons f c q h (inr (inl burst)) = inr (inl burst)
Exhausted-cons f c q h (inr (inr all)) = inr (inr (h, all))

stopped :
    (f : SendFlow) (q : List DataChunk) → (send_buget f && burst_avoid f) ≡ false → Exhausted f q
stopped f q e = elim (Bool-cases (send_buget f)) [
  | inl budget ↦ inr (inl (rw budget at e))
  | inr spent ↦ inl spent
]

try_loop-Exhausted :
    (q : List DataChunk) (front : ℕ) (f : SendFlow)
    → Exhausted (try_loop q front f).1 (try_loop q front f).0
unfolding try_loop
try_loop-Exhausted [] front f = inr (inr tt)
try_loop-Exhausted (c ∷ q) front f = elim (Bool-cases (send_buget f && burst_avoid f)) [
  | inl go ↦ rw go (
      Exhausted-cons (try_loop q front (try_chunk f front c).1).1 (try_chunk f front c).0 _
        (try_chunk-InFlight f front c) (try_loop-Exhausted q front (try_chunk f front c).1))
  | inr stop ↦ rw stop (stopped f (c ∷ q) stop)
]

-- One round that the windows and the burst limit allow.
try_chunk-bounds :
    (f : SendFlow) (front : ℕ) (c : DataChunk) (top : ℕ)
    → IsSegment c
    → f.inflight_bytes ≤ top
    → min f.recv_wnd f.cong_wnd + smss ≤ top + 1
    → top < 2 ^ 64
    → (send_buget f && burst_avoid f) ≡ true
    → ((try_chunk f front c).1.inflight_bytes ≤ top)
      × ((try_chunk f front c).1.data_packets_count ≤ max f.data_packets_count 6)
      × (f.data_packets_count ≤ (try_chunk f front c).1.data_packets_count)
      × ((try_chunk f front c).1.recv_wnd ≡ f.recv_wnd)
      × ((try_chunk f front c).1.cong_wnd ≡ f.cong_wnd)
unfolding try_chunk add64 send_buget burst_avoid min_uint
try_chunk-bounds f front c top s k l m go = ground arith

try_loop-bounds :
    (q : List DataChunk) (front : ℕ) (f : SendFlow) (top : ℕ)
    → All IsSegment q
    → f.inflight_bytes ≤ top
    → min f.recv_wnd f.cong_wnd + smss ≤ top + 1
    → top < 2 ^ 64
    → ((try_loop q front f).1.inflight_bytes ≤ top)
      × ((try_loop q front f).1.data_packets_count ≤ max f.data_packets_count 6)
unfolding try_loop
try_loop-bounds [] front f top h k l m = omega arith
try_loop-bounds (c ∷ q) front f top (s, h) k l m = ground (
  arith,
  try_chunk-bounds f front c top s k l m,
  try_loop-bounds q front (try_chunk f front c).1 top h,
)

-- On chunks of at most a segment, with counts below 2 ^ 63, `try_send` leaves a chunk waiting only if the windows or the burst limit stop it. It sends more
-- only while the bytes in flight are below both windows, so it passes the lower by less than a
-- segment, and it counts at most six packets without an acknowledgement. A count that is above its bound
-- before does not grow.
pub try_send_budget :
    (f : SendFlow)
    → All IsSegment f.send_queue
    → f.inflight_bytes < 2 ^ 63
    → min f.recv_wnd f.cong_wnd < 2 ^ 63
    → Exhausted (try_send f) (try_send f).send_queue
      × ((try_send f).inflight_bytes ≤ max f.inflight_bytes (min f.recv_wnd f.cong_wnd + smss - 1))
      × ((try_send f).data_packets_count ≤ max f.data_packets_count 6)
unfolding try_send
try_send_budget f h k l =
    let top = max f.inflight_bytes (min f.recv_wnd f.cong_wnd + smss - 1) in
    let (bytes, count) =
      try_loop-bounds f.send_queue (front_seq f.send_queue) f top h (omega arith) (omega arith)
        (omega arith) in
    (
      unfold send_buget burst_avoid in try_loop-Exhausted f.send_queue (front_seq f.send_queue) f,
      bytes,
      count,
    )
