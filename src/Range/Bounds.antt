-- ===== src/Range/Bounds.antt =====
-- The operations on proper ranges in plain arithmetic.
use go_rtmfp.Prelude.{
  ℕ, ◌+◌, ◌-◌, ◌^◌, ◌<◌, ◌≡◌, true, ◌&&◌, ◌||◌, some, leb, ltb, add64, sub64, min_uint, max_uint,
  arith, min, max,
}
use go_rtmfp.Range.{
  Range, make_range, range_end, range_contain, is_range_intersect, range_intersect, can_range_merge,
  range_merge, IsProper,
}

pub range_end-fits : (r : Range) → IsProper r → range_end r ≡ r.pos + r.len
unfolding range_end add64
range_end-fits r h = omega arith

pub can_range_merge_iff :
    (a b : Range)
    → IsProper a
    → IsProper b
    → can_range_merge a b ≡ (leb a.pos (b.pos + b.len) && leb b.pos (a.pos + a.len))
unfolding can_range_merge add64 sub64 min_uint max_uint
can_range_merge_iff a b ha hb = ground (arith, range_end-fits a ha, range_end-fits b hb)

pub range_contain_iff :
    (r : Range) (p : ℕ) → IsProper r → range_contain r p ≡ (leb r.pos p && ltb p (r.pos + r.len))
unfolding range_contain
range_contain_iff r p h = ground (arith, range_end-fits r h)

pub make_range-IsProper :
    (pos end : ℕ)
    → pos < end
    → end < 2 ^ 63
    → make_range pos end ≡ record { pos = pos; len = end - pos }
unfolding make_range sub64
make_range-IsProper pos end h k = ground arith

-- From the lower start to the higher end.
abbrev pub hull : Range → Range → Range
hull a b = record {
  pos = min a.pos b.pos;
  len = max (a.pos + a.len) (b.pos + b.len) - min a.pos b.pos;
}

pub hull-IsProper : (a b : Range) → IsProper a → IsProper b → IsProper (hull a b)
hull-IsProper a b ha hb = omega arith

-- Two proper ranges that touch or overlap merge, with no panic, into their hull.
pub range_merge-hull :
    (a b : Range)
    → IsProper a
    → IsProper b
    → can_range_merge a b ≡ true
    → range_merge a b ≡ some (hull a b)
unfolding range_merge sub64 max_uint min_uint
range_merge-hull a b ha hb e =
    ground (arith, range_end-fits a ha, range_end-fits b hb, can_range_merge_iff a b ha hb)

-- The hull then holds exactly the positions of the two.
pub range_contain-hull :
    (a b : Range) (p : ℕ)
    → IsProper a
    → IsProper b
    → can_range_merge a b ≡ true
    → range_contain (hull a b) p ≡ (range_contain a p || range_contain b p)
range_contain-hull a b p ha hb e = ground (
  arith,
  can_range_merge_iff a b ha hb,
  range_contain_iff a p ha,
  range_contain_iff b p hb,
  range_contain_iff (hull a b) p (hull-IsProper a b ha hb),
)

-- The intersection holds exactly the common positions.
pub range_contain-range_intersect :
    (a b : Range) (p : ℕ)
    → IsProper a
    → IsProper b
    → range_contain (range_intersect a b) p ≡ (range_contain a p && range_contain b p)
unfolding range_contain range_intersect sub64 min_uint add64
range_contain-range_intersect a b p ha hb = ground arith

-- It is empty exactly when the ranges do not overlap.
pub range_intersect-empty :
    (a b : Range)
    → IsProper a
    → IsProper b
    → is_range_intersect a b ≡ ltb 0 (range_intersect a b).len
unfolding is_range_intersect range_intersect sub64 min_uint max_uint add64
range_intersect-empty a b ha hb = ground arith

-- An intersection that is not empty is proper.
pub range_intersect-IsProper :
    (a b : Range)
    → IsProper a
    → IsProper b
    → 0 < (range_intersect a b).len
    → IsProper (range_intersect a b)
unfolding range_intersect sub64 min_uint add64 range_end
range_intersect-IsProper a b ha hb h = ground arith
