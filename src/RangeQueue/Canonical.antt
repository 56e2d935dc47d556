-- ===== src/RangeQueue/Canonical.antt =====
-- A valid queue is determined by the positions that it holds, and `Equals` tests just that.
use go_rtmfp.Prelude.{ℕ, ◌+◌, ◌≤◌, ◌≡◌, refl, sym, true, List, [], ◌∷◌, arith, ◌↔◌, dec_lt}
use mathlib.Core.Path.{ap₂}
use go_rtmfp.Range.{Range, range_equals, IsProper}
use go_rtmfp.Range.Bounds.{range_contain_iff}
use go_rtmfp.RangeQueue.{contain, equals_loop, queue_equals}
use go_rtmfp.RangeQueue.Valid.{IsValidFrom, IsValid, contain-below}

contain-head : (v : Range) (q : List Range) → IsProper v → contain (v ∷ q) v.pos ≡ true
unfolding contain
contain-head v q hv = ground (arith, range_contain_iff v v.pos hv)

-- The first start of `v ∷ q` is not below that of `w ∷ q'` if the second holds what the first does.
head-le :
    (v w : Range) (q q' : List Range)
    → IsProper v
    → IsValidFrom w.pos (w ∷ q')
    → ((p : ℕ) → contain (v ∷ q) p ≡ contain (w ∷ q') p)
    → w.pos ≤ v.pos
head-le v w q q' hv vw same = elim (dec_lt v.pos w.pos) [
  | yes low ↦
      absurd (cc (contain-head v q hv, same v.pos, contain-below w.pos (w ∷ q') v.pos vw low))
  | no high ↦ omega arith
]

-- With one start, the first end of `v ∷ q` is not below that of `w ∷ q'`.
end-le :
    (v w : Range) (q q' : List Range)
    → IsProper v
    → IsProper w
    → IsValidFrom (v.pos + v.len + 1) q
    → v.pos ≡ w.pos
    → ((p : ℕ) → contain (v ∷ q) p ≡ contain (w ∷ q') p)
    → w.pos + w.len ≤ v.pos + v.len
unfolding contain
end-le v w q q' hv hw vq e same = ground (
  arith,
  same (v.pos + v.len),
  range_contain_iff v (v.pos + v.len) hv,
  range_contain_iff w (v.pos + v.len) hw,
  contain-below (v.pos + v.len + 1) q (v.pos + v.len) vq,
)

tail-same :
    (v w : Range) (q q' : List Range) (p : ℕ)
    → v ≡ w
    → IsProper v
    → IsProper w
    → IsValidFrom (v.pos + v.len + 1) q
    → IsValidFrom (w.pos + w.len + 1) q'
    → contain (v ∷ q) p ≡ contain (w ∷ q') p
    → contain q p ≡ contain q' p
unfolding contain
tail-same v w q q' p e hv hw vq vq' same = ground (
  arith,
  range_contain_iff v p hv,
  range_contain_iff w p hw,
  contain-below (v.pos + v.len + 1) q p vq,
  contain-below (w.pos + w.len + 1) q' p vq',
)

-- Two valid queues that hold the same positions are the same list of ranges.
pub valid_ext :
    (lo lo' : ℕ) (q q' : List Range)
    → IsValidFrom lo q
    → IsValidFrom lo' q'
    → ((p : ℕ) → contain q p ≡ contain q' p)
    → q ≡ q'
valid_ext lo lo' [] [] v v' same = refl
valid_ext lo lo' [] (w ∷ q') v (k, hw, vq) same =
    absurd (unfold contain in cc (same w.pos, contain-head w q' hw))
valid_ext lo lo' (v ∷ q) [] (k, hv, vq) v' same =
    absurd (unfold contain in cc (same v.pos, contain-head v q hv))
valid_ext lo lo' (v ∷ q) (w ∷ q') (k, hv, vq) (k', hw, vq') same =
    let back = λ (p : ℕ). sym (same p) in
    let e : v.pos ≡ w.pos = omega (
      arith,
      head-le v w q q' hv (omega arith, hw, vq') same,
      head-le w v q' q hw (omega arith, hv, vq) back,
    ) in
    let e' : v.len ≡ w.len =
      omega (arith, end-le v w q q' hv hw vq e same, end-le w v q' q hw hv vq' (sym e) back) in
    let vw : v ≡ w = ground arith in
    ap₂ ◌∷◌ vw (
      valid_ext (v.pos + v.len + 1) (w.pos + w.len + 1) q q' vq vq'
        (λ p. tail-same v w q q' p vw hv hw vq vq' (same p)))

equals_loop_sound : (q q' : List Range) → equals_loop q q' ≡ true → q ≡ q'
unfolding equals_loop range_equals
equals_loop_sound [] [] e = refl
equals_loop_sound [] (w ∷ q') e = cc
equals_loop_sound (v ∷ q) [] e = cc
equals_loop_sound (v ∷ q) (w ∷ q') e = ground (arith, equals_loop_sound q q')

equals_loop_refl : (q : List Range) → equals_loop q q ≡ true
unfolding equals_loop range_equals
equals_loop_refl [] = refl
equals_loop_refl (v ∷ q) = ground (arith, equals_loop_refl q)

-- On valid queues `Equals` answers true exactly when the two hold the same positions.
pub queue_equals_iff :
    (q q' : List Range)
    → IsValid q
    → IsValid q'
    → (queue_equals q q' ≡ true) ↔ ((p : ℕ) → contain q p ≡ contain q' p)
unfolding queue_equals
queue_equals_iff q q' v v' = (
  λ e p. cc (equals_loop_sound q q' (ground arith)),
  λ same. rw (valid_ext 0 0 q q' v v' same) (ground (arith, equals_loop_refl q')),
)
