-- ===== src/Range.antt =====
-- The half-open ranges of src/rtmfp/range.go. Positions and lengths are Go's 64-bit `uint`.
pub mod Bounds
use go_rtmfp.Prelude.{
  ℕ, ◌+◌, ◌^◌, ◌≤◌, ◌<◌, Bool, true, false, ◌&&◌, Option, none, some, leb, ltb, ◌==◌, if◌then◌else◌,
  add64, sub64, min_uint, max_uint,
}

pub record Range : Type 0 where
  pub pos : ℕ
  pub len : ℕ

-- `Range{}`
abbrev pub empty_range : Range
empty_range = record { pos = 0; len = 0 }

unfoldable pub make_range : ℕ → ℕ → Range
make_range pos end = record { pos = pos; len = sub64 end pos }

unfoldable pub range_end : Range → ℕ
range_end r = add64 r.pos r.len

unfoldable pub range_equals : Range → Range → Bool
range_equals a b = a.pos == b.pos && a.len == b.len

unfoldable pub range_contain : Range → ℕ → Bool
unfolding range_end
range_contain r p = leb r.pos p && ltb p (range_end r)

-- `y - x`, from the lower of the starts to the higher of the ends.
unfoldable pub span : Range → Range → ℕ
unfolding range_end
span a b = sub64 (max_uint (range_end a) (range_end b)) (min_uint a.pos b.pos)

unfoldable pub is_range_intersect : Range → Range → Bool
unfolding span
is_range_intersect a b = ltb (span a b) (add64 a.len b.len)

-- `RangeIntersect` where `a` starts first, and else the recursive call, whose arguments are swapped.
unfoldable pub intersect_ordered : Range → Range → Range
unfolding range_end
intersect_ordered a b =
    if ltb b.pos (range_end a)
    then record { pos = b.pos; len = sub64 (min_uint (range_end a) (range_end b)) b.pos }
    else empty_range

unfoldable pub range_intersect : Range → Range → Range
unfolding intersect_ordered
range_intersect a b = if leb a.pos b.pos then intersect_ordered a b else intersect_ordered b a

unfoldable pub can_range_merge : Range → Range → Bool
unfolding span
can_range_merge a b = leb (span a b) (add64 a.len b.len)

-- `RangeMerge` likewise; `none` is its panic.
unfoldable pub merge_ordered : Range → Range → Option Range
unfolding range_end
merge_ordered a b =
    if leb b.pos (range_end a)
    then some (record { pos = a.pos; len = sub64 (max_uint (range_end a) (range_end b)) a.pos })
    else none

unfoldable pub range_merge : Range → Range → Option Range
unfolding merge_ordered
range_merge a b = if leb a.pos b.pos then merge_ordered a b else merge_ordered b a

-- A range that holds something and ends low enough for the sum of two lengths not to wrap.
pub record IsProper (r : Range) : Type 0 where
  pub nonempty : 0 < r.len
  pub fits : r.pos + r.len < 2 ^ 63
