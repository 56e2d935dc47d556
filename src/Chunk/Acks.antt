-- ===== src/Chunk/Acks.antt =====
-- Round trip of the acknowledgement chunk: `send_range_ack` of src/rtmfp/session.go and
-- `decode_range_ack_chunk` of src/rtmfp/chunk.go.
use go_rtmfp.Prelude.{
  ℕ, zero, suc, ◌+◌, ◌*◌, ◌/◌, ◌^◌, ◌≤◌, ◌<◌, ◌≡◌, refl, ap, ◌∙◌, Bool, false, List, [], ◌∷◌, ◌++◌,
  arith, length, length-append, add64, sub64, mul64, IsU64, dec_le, add64_fits, mul64_fits,
}
use go_rtmfp.Prelude.Order.{lt_wf}
use go_rtmfp.Vlu.{encode_groups, internal_encode_vlu, encode_vlu, decode_vlu}
use go_rtmfp.Vlu.RoundTrip.{encode-small, encode-large, decode_vlu-encode_vlu}
use go_rtmfp.RangeQueue.Valid.{IsValidFrom, IsValidFrom-le}
use go_rtmfp.Range.{IsProper, Range, make_range, range_end}
use go_rtmfp.Chunk.{recv_range_ack}
use go_rtmfp.Chunk.Decode.{ranges_loop, decode_range_ack_chunk}
use go_rtmfp.Chunk.Encode.{ack_ranges, send_range_ack_body}
use mathlib.Core.WellFounded.{Acc}

-- What `encode_vlu` writes is never empty.
groups_positive : (v : ℕ) (more : Bool) (w : Acc ◌<◌ v) → 0 < length (encode_groups v more w)
groups_positive v more (Acc.intro _ smaller) = elim (dec_le 128 v) [
  | yes p ↦ rw (encode-large v more smaller p, length-append) (omega arith)
  | no p ↦ rw (encode-small v more (Acc.intro v smaller) (omega arith)) (omega arith)
]

pub vlu_positive : (v : ℕ) → 0 < length (encode_vlu v)
unfolding encode_vlu internal_encode_vlu
vlu_positive v = groups_positive v false (lt_wf.apply v)

pub encode_positive : (v : ℕ) (t : List ℕ) → 0 < length (encode_vlu v ++ t)
encode_positive v t = rw (length-append) (omega (arith, vlu_positive v))

-- One round of the decoder on any bytes that begin with two numbers.
ranges_round :
    (fuel cursor hole size : ℕ) (l l1 l2 : List ℕ)
    → 0 < length l
    → decode_vlu l ≡ (hole, l1)
    → decode_vlu l1 ≡ (size, l2)
    → ranges_loop (suc fuel) cursor l
      ≡ make_range
          (add64 (add64 cursor hole) 1)
          (add64 (add64 (add64 cursor hole) 1) (add64 size 1))
        ∷ ranges_loop fuel
            (range_end (
              make_range
                (add64 (add64 cursor hole) 1)
                (add64 (add64 (add64 cursor hole) 1) (add64 size 1))))
            l2
unfolding ranges_loop
ranges_round fuel cursor hole size [] l1 l2 h e f = absurd (omega arith)
ranges_round fuel cursor hole size (b ∷ l) l1 l2 h e f = rw (e, f) refl

-- The range that comes back from its hole and size.
range_trip :
    (cursor : ℕ) (r : Range)
    → cursor + 1 ≤ r.pos
    → IsProper r
    → make_range
        (add64 (add64 cursor (sub64 (sub64 r.pos cursor) 1)) 1)
        (add64 (add64 (add64 cursor (sub64 (sub64 r.pos cursor) 1)) 1) (add64 (sub64 r.len 1) 1))
      ≡ r
range_trip cursor r h proper =
    let k : 0 < r.len = proper.nonempty in
    let fits : r.pos + r.len < 2 ^ 63 = proper.fits in
    let start : add64 (add64 cursor (sub64 (sub64 r.pos cursor) 1)) 1 ≡ r.pos =
      unfold add64 sub64 in omega arith in
    let size : sub64 (add64 r.pos (add64 (sub64 r.len 1) 1)) r.pos ≡ r.len =
      unfold add64 sub64 in omega arith in
    rw start (unfold make_range in λ i. record { pos = r.pos; len = size i })

ranges_trip :
    (fuel cursor : ℕ) (rs : List Range)
    → IsValidFrom (cursor + 1) rs
    → length rs ≤ fuel
    → ranges_loop fuel cursor (ack_ranges cursor rs) ≡ rs
unfolding ack_ranges
ranges_trip zero cursor [] g h = unfold ranges_loop in refl
ranges_trip (suc fuel) cursor [] g h = unfold ranges_loop in refl
ranges_trip zero cursor (r ∷ rs) g h = absurd (omega arith)
ranges_trip (suc fuel) cursor (r ∷ rs) (above, proper, rest) h =
    let fits : r.pos + r.len < 2 ^ 63 = proper.fits in
    let end : range_end r ≡ r.pos + r.len =
      unfold range_end in add64_fits r.pos r.len (omega arith) in
    ranges_round fuel cursor (sub64 (sub64 r.pos cursor) 1) (sub64 r.len 1) _ _ _
      (encode_positive _ _) (decode_vlu-encode_vlu _ _ (unfold sub64 in omega arith))
      (decode_vlu-encode_vlu _ _ (unfold sub64 in omega arith))
    ∙ rw (range_trip cursor r above proper, end)
        (ap (◌∷◌ r) (ranges_trip fuel (r.pos + r.len) rs rest (omega arith)))

-- A round of the encoder writes at least a byte.
ranges_count : (cursor : ℕ) (rs : List Range) → length rs ≤ length (ack_ranges cursor rs)
unfolding ack_ranges
ranges_count cursor [] = omega arith
ranges_count cursor (r ∷ rs) =
    rw (length-append, length-append)
      (omega (arith, vlu_positive (sub64 (sub64 r.pos cursor) 1), ranges_count (range_end r) rs))

-- What `send_range_ack` writes, `decode_range_ack_chunk` reads back: the flow, the cumulative
-- acknowledgement and the ranges as they were, and the free buffer rounded down to whole kilobytes. This is
-- for 64-bit numbers and for ranges in order, not empty, with a gap below each (the first above the next number
-- after the cumulative acknowledgement).
pub decode_range_ack_chunk-send_range_ack_body :
    (flowid buf_avail cum_ack : ℕ) (rs : List Range)
    → IsU64 flowid
    → IsU64 buf_avail
    → cum_ack + 1 < 2 ^ 64
    → IsValidFrom (cum_ack + 2) rs
    → decode_range_ack_chunk (send_range_ack_body flowid buf_avail cum_ack rs)
      ≡ recv_range_ack flowid (buf_avail / 1024 * 1024) cum_ack rs
unfolding decode_range_ack_chunk send_range_ack_body
decode_range_ack_chunk-send_range_ack_body flowid buf_avail cum_ack rs hf hb hc valid =
    let size : mul64 (buf_avail / 1024) 1024 ≡ buf_avail / 1024 * 1024 =
      mul64_fits _ _ (omega arith) in
    let cursor : add64 cum_ack 1 ≡ cum_ack + 1 = add64_fits cum_ack 1 hc in
    rw
      (
        decode_vlu-encode_vlu flowid _ hf,
        decode_vlu-encode_vlu (buf_avail / 1024) _ (omega arith),
        decode_vlu-encode_vlu cum_ack _ (omega arith),
        size,
        cursor,
        ranges_trip _ (cum_ack + 1) rs
            (IsValidFrom-le (cum_ack + 2) (cum_ack + 1 + 1) rs (omega arith) valid)
            (ranges_count (cum_ack + 1) rs),
      )
      refl
