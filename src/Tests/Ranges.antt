-- ===== src/Tests/Ranges.antt =====
-- Runs of src/rtmfp/range.go.
use go_rtmfp.Prelude.{
  ℕ, ◌≡◌, refl, ◌↔◌, true, ◌&&◌, not, some, List, [], ◌∷◌, arith, add64, sub64, min_uint, max_uint,
}
use go_rtmfp.Range.{Range, range_contain, can_range_merge, range_merge, range_intersect}
use go_rtmfp.RangeQueue.{add_range, subtract_range, contain, queue_equals, range_queue_intersect}
use go_rtmfp.RangeQueue.Valid.{IsValid}
use go_rtmfp.RangeQueue.Add.{Adds, add_range-Adds}
use go_rtmfp.RangeQueue.Subtract.{subtract_range-removes}
use go_rtmfp.RangeQueue.Canonical.{queue_equals_iff}

abbrev range : ℕ → ℕ → Range
range pos len = record { pos = pos; len = len }

abbrev two : List Range
two = range 0 10 ∷ range 20 5 ∷ []

-- The range that joins the two.
add_joins : add_range two (range 10 10) ≡ some (range 0 25 ∷ [])
unfolding add_range add64 sub64 min_uint max_uint can_range_merge range_merge
add_joins = refl

subtract_splits : subtract_range two (range 5 17) ≡ range 0 5 ∷ range 22 3 ∷ []
unfolding subtract_range add64 sub64 min_uint
subtract_splits = refl

intersect_runs : range_queue_intersect two (range 8 14 ∷ []) ≡ some (range 8 2 ∷ range 20 2 ∷ [])
unfolding range_queue_intersect add_range range_intersect add64 sub64 min_uint max_uint
    can_range_merge
intersect_runs = refl

add_range-Adds_example : Adds 0 (range 10 10) two (add_range two (range 10 10))
add_range-Adds_example = add_range-Adds two (range 10 10) (omega arith) (omega arith)

subtract_range-removes_example :
    IsValid (subtract_range two (range 5 17))
    × ((p : ℕ)
        → contain (subtract_range two (range 5 17)) p
          ≡ (contain two p && not (range_contain (range 5 17) p)))
subtract_range-removes_example = subtract_range-removes two (range 5 17) (omega arith) (omega arith)

queue_equals_iff_example : (queue_equals two two ≡ true) ↔ ((p : ℕ) → contain two p ≡ contain two p)
queue_equals_iff_example = queue_equals_iff two two (omega arith) (omega arith)
