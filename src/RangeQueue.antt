-- ===== src/RangeQueue.antt =====
-- `RangeQueue` of src/rtmfp/range.go: a linked list of ranges. A method that changes the queue
-- returns the new one; `none` is a panic, which only `RangeMerge` can raise.
pub mod Valid
pub mod Add
pub mod Subtract
pub mod Canonical
pub mod Intersect
use go_rtmfp.Prelude.{
  ℕ, ◌+◌, ◌^◌, ◌≤◌, ◌<◌, Bool, true, false, ◌&&◌, ◌||◌, Option, none, some, List, [], ◌∷◌, ◌++◌,
  not, leb, ltb, ◌==◌, if◌then◌else◌, ◌>>=◌, sub64, length,
}
use go_rtmfp.Range.{
  Range, range_end, range_equals, range_contain, range_intersect, can_range_merge, range_merge,
  IsProper,
}

-- `concat` with the cursor `e` at `v`: merge with the next range, or move on.
unfoldable pub concat_from : Range → List Range → Option (List Range)
concat_from v [] = some (v ∷ [])
concat_from v (w ∷ q) = elim (can_range_merge v w) [
  | true ↦ range_merge v w >>= λ m. concat_from m q
  | false ↦ concat_from w q >>= λ q'. some (v ∷ q')
]

unfoldable pub concat : List Range → Option (List Range)
unfolding concat_from
concat [] = some []
concat (v ∷ q) = concat_from v q

-- The loop of `AddRange`: where `r` is inserted, and whether `concat` follows.
unfoldable pub insert_range : List Range → Range → List Range × Bool
insert_range [] r = (r ∷ [], false)
insert_range (v ∷ q) r =
    let rest = insert_range q r in
    if can_range_merge v r
    then (r ∷ v ∷ q, true)
    else if ltb r.pos v.pos
    then (r ∷ v ∷ q, false)
    else (v ∷ rest.0, rest.1)

unfoldable pub settle : List Range × Bool → Option (List Range)
unfolding concat
settle (q, merges) = if merges then concat q else some q

unfoldable pub add_range : List Range → Range → Option (List Range)
unfolding insert_range settle
add_range q r = if r.len == 0 then some q else settle (insert_range q r)

-- What `SubstractRange` leaves of `v`, where `ir` is its intersection with the range taken away.
unfoldable pub remainder : Range → Range → List Range
unfolding range_end range_equals
remainder v ir =
    if ltb 0 ir.len
    then if range_equals ir v
      then []
      else if not (ir.pos == v.pos)
      then record { pos = v.pos; len = sub64 ir.pos v.pos }
        ∷ (if not (range_end ir == range_end v)
            then record { pos = range_end ir; len = sub64 (range_end v) (range_end ir) } ∷ []
            else [])
      else record { pos = range_end ir; len = sub64 (range_end v) (range_end ir) } ∷ []
    else v ∷ []

-- The loop goes on behind an inserted range, and stops at a range past the end of `r`.
unfoldable pub subtract_range : List Range → Range → List Range
unfolding remainder range_intersect
subtract_range [] r = []
subtract_range (v ∷ q) r =
    remainder v (range_intersect v r) ++ (if ltb (range_end r) v.pos then q else subtract_range q r)

unfoldable pub add_range_queue : List Range → List Range → Option (List Range)
add_range_queue q [] = some q
add_range_queue q (r ∷ rs) = add_range q r >>= λ q'. add_range_queue q' rs

unfoldable pub subtract_range_queue : List Range → List Range → List Range
subtract_range_queue q [] = q
subtract_range_queue q (r ∷ rs) = subtract_range_queue (subtract_range q r) rs

-- The loop of `Equals`, entered with both lists non-empty or both empty.
unfoldable pub equals_loop : List Range → List Range → Bool
equals_loop [] [] = true
equals_loop [] (b ∷ bs) = false
equals_loop (a ∷ q) [] = false
equals_loop (a ∷ q) (b ∷ bs) = if not (range_equals a b) then false else equals_loop q bs

unfoldable pub queue_equals : List Range → List Range → Bool
unfolding equals_loop range_equals
queue_equals q q' = if not (length q == length q') then false else equals_loop q q'

unfoldable pub contain : List Range → ℕ → Bool
contain [] p = false
contain (v ∷ q) p = if range_contain v p then true else contain q p

-- The inner and the outer loop of `RangeQueueIntersect`.
unfoldable pub intersect_with : List Range → Range → List Range → Option (List Range)
intersect_with rq v [] = some rq
intersect_with rq v (w ∷ b) = add_range rq (range_intersect v w) >>= λ rq'. intersect_with rq' v b

unfoldable pub intersect_loop : List Range → List Range → List Range → Option (List Range)
intersect_loop rq [] b = some rq
intersect_loop rq (v ∷ a) b = intersect_with rq v b >>= λ rq'. intersect_loop rq' a b

unfoldable pub range_queue_intersect : List Range → List Range → Option (List Range)
unfolding intersect_loop intersect_with
range_queue_intersect a b = intersect_loop [] a b

-- `RangeQueueFromArray` and `ToArray` copy the ranges in order.
unfoldable pub range_queue_from_array : List Range → List Range
range_queue_from_array [] = []
range_queue_from_array (r ∷ ra) = r ∷ range_queue_from_array ra

unfoldable pub to_array : List Range → List Range
to_array [] = []
to_array (r ∷ q) = r ∷ to_array q
