-- ===== src/RangeQueue/Subtract.antt =====
-- `SubstractRange` on a valid queue.
use go_rtmfp.Prelude.{
  ℕ, ◌+◌, ◌-◌, ◌≤◌, ◌≡◌, refl, ◌&&◌, not, List, [], ◌∷◌, ◌++◌, arith, ltb, inl, inr, dec_lt,
  Bool-cases, if◌then◌else◌, sub64, add64, min_uint,
}
use go_rtmfp.Range.{Range, range_end, range_contain, range_equals, range_intersect, IsProper}
use go_rtmfp.Range.Bounds.{range_end-fits, range_contain_iff}
use go_rtmfp.RangeQueue.{remainder, subtract_range, contain}
use go_rtmfp.RangeQueue.Valid.{
  IsValidFrom, IsValid, EndsBy, IsValidFrom-append, IsValidFrom-le, contain-append, contain-below,
}

-- What is left of `v` when `r` is taken away: at most two proper ranges inside `v`.
abbrev left : Range → Range → List Range
left v r = remainder v (range_intersect v r)

left-valid :
    (v r : Range)
    → IsProper v
    → IsProper r
    → IsValidFrom v.pos (left v r) × EndsBy (v.pos + v.len) (left v r)
unfolding remainder range_intersect sub64 add64 min_uint range_end range_equals
left-valid v r hv hr = ground arith

-- The same in plain arithmetic.
abbrev cut : Range → Range → List Range
cut v r =
    if ltb r.pos (v.pos + v.len) && ltb v.pos (r.pos + r.len)
    then (if ltb v.pos r.pos then record { pos = v.pos; len = r.pos - v.pos } ∷ [] else [])
      ++ (if ltb (r.pos + r.len) (v.pos + v.len)
          then record { pos = r.pos + r.len; len = v.pos + v.len - (r.pos + r.len) } ∷ []
          else [])
    else v ∷ []

left-cut : (v r : Range) → IsProper v → IsProper r → left v r ≡ cut v r
unfolding remainder range_intersect sub64 add64 min_uint range_end range_equals
left-cut v r hv hr = ground arith

contain-cut :
    (v r : Range) (p : ℕ)
    → IsProper v
    → IsProper r
    → contain (cut v r) p ≡ (range_contain v p && not (range_contain r p))
unfolding contain range_contain add64
contain-cut v r p hv hr = ground arith

contain-left :
    (v r : Range) (p : ℕ)
    → IsProper v
    → IsProper r
    → contain (left v r) p ≡ (range_contain v p && not (range_contain r p))
contain-left v r p hv hr = rw (left-cut v r hv hr) (contain-cut v r p hv hr)

-- A queue that starts past the end of `r` holds nothing of it.
beyond :
    (lo : ℕ) (q : List Range) (r : Range) (p : ℕ)
    → IsValidFrom lo q
    → IsProper r
    → r.pos + r.len ≤ lo
    → contain q p ≡ (contain q p && not (range_contain r p))
beyond lo q r p v hr h = elim (dec_lt p lo) [
  | yes low ↦ rw (contain-below lo q p v low)
  | no high ↦ ground (arith, range_contain_iff r p hr)
]

subtract_range-valid :
    (lo : ℕ) (q : List Range) (r : Range)
    → IsValidFrom lo q
    → IsProper r
    → IsValidFrom lo (subtract_range q r)
unfolding subtract_range
subtract_range-valid lo [] r v hr = tt
subtract_range-valid lo (w ∷ q) r (k, hw, vq) hr =
    let (va, ea) = left-valid w r hw hr in
    IsValidFrom-append lo (w.pos + w.len) (left w r) _ (omega arith)
      (IsValidFrom-le w.pos lo (left w r) k va) ea
      (elim (Bool-cases (ltb (range_end r) w.pos)) [
        | inl e ↦ rw e vq
        | inr e ↦ rw e (subtract_range-valid (w.pos + w.len + 1) q r vq hr)
      ])

contain-subtract_range :
    (lo : ℕ) (q : List Range) (r : Range) (p : ℕ)
    → IsValidFrom lo q
    → IsProper r
    → contain (subtract_range q r) p ≡ (contain q p && not (range_contain r p))
unfolding subtract_range contain
contain-subtract_range lo [] r p v hr = refl
contain-subtract_range lo (w ∷ q) r p (k, hw, vq) hr = ground (
  arith,
  contain-append (left w r) (if ltb (range_end r) w.pos then q else subtract_range q r) p,
  contain-left w r p hw hr,
  range_end-fits r hr,
  beyond (w.pos + w.len + 1) q r p vq hr,
  contain-subtract_range (w.pos + w.len + 1) q r p vq hr,
)

-- On a valid queue and for a range that is not empty and ends below 2 ^ 63, `SubstractRange` gives a valid queue, which holds exactly the positions of the
-- queue that the range taken away does not hold.
pub subtract_range-removes :
    (q : List Range) (r : Range)
    → IsValid q
    → IsProper r
    → IsValid (subtract_range q r)
      × ((p : ℕ) → contain (subtract_range q r) p ≡ (contain q p && not (range_contain r p)))
subtract_range-removes q r v hr =
    (subtract_range-valid 0 q r v hr, λ p. contain-subtract_range 0 q r p v hr)
