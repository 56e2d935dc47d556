-- ===== src/SendFlow/Inflight.antt =====
-- The count of bytes in flight (src/rtmfp/flow.go): every operation of a send flow keeps it equal,
-- modulo 2 ^ 64, to the bytes of the chunks of the queue that are marked as in flight.
use go_rtmfp.Prelude.{
  ℕ, zero, suc, ◌+◌, ◌%◌, ◌^◌, ◌≡◌, refl, sym, ap, ◌∙◌, Bool, true, false, List, [], ◌∷◌, ◌++◌,
  arith, add64, sub64, inl, inr, Bool-cases, if◌then◌else◌, ◌&&◌, length, ltb,
}
use go_rtmfp.DataChunk.{DataChunk, chunk_len, Globals, new_chunk, fc_whole}
use go_rtmfp.Range.{Range}
use go_rtmfp.SendFlow.State.{SendFlow, next_seqnumber, chunk_loss}
use go_rtmfp.SendFlow.Congestion.{update_congestion_wnd}
use go_rtmfp.SendFlow.Transmit.{
  front_seq, try_chunk, try_loop, try_send, push_back, push_fragment, chunk_length, fragment_loop,
  enqueue, send, rtx_loop, on_rtx_alarm,
}
use go_rtmfp.SendFlow.Ack.{
  AckScan, start_scan, ack_chunk, ack_loop, nak_loop, finish_ack, apply_ack,
}

abbrev pub inflight_sum : List DataChunk → ℕ
inflight_sum [] = 0
inflight_sum (c ∷ q) = (if c.in_flight then chunk_len c else 0) + inflight_sum q

-- The count is right.
abbrev pub IsCounted : SendFlow → Type 0
IsCounted f = f.inflight_bytes ≡ inflight_sum f.send_queue % 2 ^ 64

inflight_sum-append :
    (q q' : List DataChunk) → inflight_sum (q ++ q') ≡ inflight_sum q + inflight_sum q'
inflight_sum-append [] q' = omega arith
inflight_sum-append (c ∷ q) q' = omega (arith, inflight_sum-append q q')

-- `k` is the sum over the part of the queue that a loop has passed.
try_chunk-sum :
    (f : SendFlow) (front : ℕ) (c : DataChunk) (k : ℕ)
    → f.inflight_bytes ≡ (k + inflight_sum (c ∷ [])) % 2 ^ 64
    → (try_chunk f front c).1.inflight_bytes
      ≡ (k + inflight_sum ((try_chunk f front c).0 ∷ [])) % 2 ^ 64
unfolding try_chunk add64
try_chunk-sum f front c k h = ground arith

try_loop-sum :
    (q : List DataChunk) (front : ℕ) (f : SendFlow) (k : ℕ)
    → f.inflight_bytes ≡ (k + inflight_sum q) % 2 ^ 64
    → (try_loop q front f).1.inflight_bytes ≡ (k + inflight_sum (try_loop q front f).0) % 2 ^ 64
unfolding try_loop
try_loop-sum [] front f k h = h
try_loop-sum (c ∷ q) front f k h =
    let one = try_chunk f front c in
    ground (
      arith,
      try_chunk-sum f front c (k + inflight_sum q),
      try_loop-sum q front one.1 (k + inflight_sum (one.0 ∷ [])),
    )

pub try_send-IsCounted : (f : SendFlow) → IsCounted f → IsCounted (try_send f)
unfolding try_send
try_send-IsCounted f h = ground (arith, try_loop-sum f.send_queue (front_seq f.send_queue) f 0)

push_back-IsCounted :
    (f : SendFlow) (c : DataChunk) → c.in_flight ≡ false → IsCounted f → IsCounted (push_back f c)
unfolding push_back
push_back-IsCounted f c e h = ground (arith, inflight_sum-append f.send_queue (c ∷ []))

push_fragment-IsCounted :
    (f : SendFlow) (i : ℕ) (buf : List ℕ) → IsCounted f → IsCounted (push_fragment f i buf)
unfolding push_fragment
push_fragment-IsCounted f i buf h =
    let f' = next_seqnumber f in push_back-IsCounted f' _ refl (unfold next_seqnumber in h)

fragment_loop-IsCounted :
    (fuel i : ℕ) (buf : List ℕ) (f : SendFlow)
    → IsCounted f
    → IsCounted (fragment_loop fuel i buf f)
unfolding fragment_loop
fragment_loop-IsCounted zero i buf f h = h
fragment_loop-IsCounted (suc fuel) i buf f h =
    let next : IsCounted (push_fragment f i buf) = push_fragment-IsCounted f i buf h in
    ground (
      arith,
      fragment_loop-IsCounted fuel (add64 i (chunk_length i buf)) buf (push_fragment f i buf) next,
    )

enqueue-IsCounted : (f : SendFlow) (buf : List ℕ) → IsCounted f → IsCounted (enqueue f buf)
unfolding enqueue next_seqnumber
enqueue-IsCounted f buf h = ground (
  arith,
  push_back-IsCounted (next_seqnumber f) (new_chunk fc_whole (next_seqnumber f).last_seqnum buf)
      refl,
  fragment_loop-IsCounted (length buf) 0 buf f h,
)

-- If the count of bytes in flight is right before `send`, modulo 2 ^ 64, it is right after it, for any data
-- and also on a closed flow.
pub send-IsCounted : (f : SendFlow) (buf : List ℕ) → IsCounted f → IsCounted (send f buf).0
unfolding send
send-IsCounted f buf h =
    ground (arith, try_send-IsCounted (enqueue f buf) (enqueue-IsCounted f buf h))

rtx_loop-sum :
    (q : List DataChunk) (any_loss : Bool) (f : SendFlow) (k : ℕ)
    → f.inflight_bytes ≡ (k + inflight_sum q) % 2 ^ 64
    → (rtx_loop q any_loss f).1.inflight_bytes
      ≡ (k + inflight_sum (rtx_loop q any_loss f).0) % 2 ^ 64
unfolding rtx_loop sub64
rtx_loop-sum [] any_loss f k h = h
rtx_loop-sum (c ∷ q) any_loss f k h = ground (
  arith,
  rtx_loop-sum q any_loss f (k + chunk_len c),
  rtx_loop-sum q any_loss f k,
  rtx_loop-sum q true (chunk_loss f c) k,
)

ack_loop-sum :
    (ranges : List Range) (q : List DataChunk) (s : AckScan) (k : ℕ)
    → s.inflight_bytes ≡ (k + inflight_sum q) % 2 ^ 64
    → (ack_loop ranges q s).1.inflight_bytes ≡ (k + inflight_sum (ack_loop ranges q s).0) % 2 ^ 64
unfolding ack_loop sub64
ack_loop-sum ranges [] s k h = h
ack_loop-sum ranges (c ∷ q) s k h = ground (
  arith,
  ack_loop-sum ranges q (ack_chunk s c) k,
  ack_loop-sum ranges q s (k + inflight_sum (c ∷ [])),
)

nak_loop-sum :
    (max_tsn : ℕ) (q : List DataChunk) (f : SendFlow) (any_nak any_loss : Bool) (k : ℕ)
    → f.inflight_bytes ≡ (k + inflight_sum q) % 2 ^ 64
    → (nak_loop max_tsn q f any_nak any_loss).1.inflight_bytes
      ≡ (k + inflight_sum (nak_loop max_tsn q f any_nak any_loss).0) % 2 ^ 64
unfolding nak_loop sub64
nak_loop-sum max_tsn [] f any_nak any_loss k h = h
nak_loop-sum max_tsn (c ∷ q) f any_nak any_loss k h = ground (
  arith,
  nak_loop-sum max_tsn q f any_nak any_loss (k + inflight_sum (c ∷ [])),
  nak_loop-sum max_tsn q f true any_loss (k + inflight_sum (c ∷ [])),
  nak_loop-sum max_tsn q (chunk_loss f c) true true k,
)

update_congestion_wnd-frame :
    (g : Globals) (f : SendFlow) (any_loss any_ack any_nak : Bool) (acked_bytes pre : ℕ)
    → ((update_congestion_wnd g f any_loss any_ack any_nak acked_bytes pre).inflight_bytes
        ≡ f.inflight_bytes)
      × ((update_congestion_wnd g f any_loss any_ack any_nak acked_bytes pre).send_queue
          ≡ f.send_queue)
unfolding update_congestion_wnd
update_congestion_wnd-frame g f any_loss any_ack any_nak acked_bytes pre = ground arith

update_congestion_wnd-IsCounted :
    (g : Globals) (f : SendFlow) (any_loss any_ack any_nak : Bool) (acked_bytes pre : ℕ)
    → IsCounted f
    → IsCounted (update_congestion_wnd g f any_loss any_ack any_nak acked_bytes pre)
update_congestion_wnd-IsCounted g f any_loss any_ack any_nak acked_bytes pre h =
    let (bytes, queue) = update_congestion_wnd-frame g f any_loss any_ack any_nak acked_bytes pre in
    bytes ∙ h ∙ sym (ap (λ q. inflight_sum q % 2 ^ 64) queue)

-- A loop starts with nothing passed.
nothing_passed : (n x : ℕ) → n ≡ x % 2 ^ 64 → n ≡ (0 + x) % 2 ^ 64
nothing_passed n x h = omega arith

all_passed : (n x : ℕ) → n ≡ (0 + x) % 2 ^ 64 → n ≡ x % 2 ^ 64
all_passed n x h = omega arith

-- If the count of bytes in flight is right before the timeout, modulo 2 ^ 64, it is right after it, also where
-- the timeout closes the flow, and whatever the backoff.
pub on_rtx_alarm-IsCounted :
    (backoff : ℕ → ℕ) (f : SendFlow) → IsCounted f → IsCounted (on_rtx_alarm backoff f)
unfolding on_rtx_alarm
on_rtx_alarm-IsCounted backoff f h =
    let counted = all_passed _ _ (rtx_loop-sum f.send_queue false f 0 (nothing_passed _ _ h)) in
    elim (Bool-cases (rtx_loop f.send_queue false f).3) [
      | inl gave_up ↦ rw gave_up counted
      | inr went_on ↦ rw went_on (try_send-IsCounted _ counted)
    ]

finish_ack-IsCounted :
    (g : Globals) (f : SendFlow) (buf_avail max_tsn acked_bytes pre : ℕ)
    → IsCounted f
    → IsCounted (finish_ack g f buf_avail max_tsn acked_bytes pre)
unfolding finish_ack
finish_ack-IsCounted g f buf_avail max_tsn acked_bytes pre h = try_send-IsCounted _ (
    update_congestion_wnd-IsCounted g _ _ true _ acked_bytes pre
      (all_passed _ _ (nak_loop-sum max_tsn f.send_queue f false false 0 (nothing_passed _ _ h))))

pub apply_ack-IsCounted :
    (g : Globals) (f : SendFlow) (buf_avail : ℕ) (ranges : List Range)
    → IsCounted f
    → IsCounted (apply_ack g f buf_avail ranges)
unfolding apply_ack
apply_ack-IsCounted g f buf_avail ranges h =
    let counted = all_passed _ _ (ack_loop-sum ranges f.send_queue _ 0 (nothing_passed _ _ h)) in
    elim (Bool-cases (
      if ltb 0 buf_avail && f.bufprob_ticker
      then true
      else (ack_loop ranges f.send_queue (start_scan f)).1.valid)) [
        | inl valid ↦ rw valid (finish_ack-IsCounted g _ buf_avail _ _ _ counted)
        | inr delayed ↦ rw delayed counted
      ]
