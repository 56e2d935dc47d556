-- ===== src/RangeQueue/Intersect.antt =====
-- `AddRangeQueue` and `RangeQueueIntersect` on valid queues.
use go_rtmfp.Prelude.{
  ℕ, ◌≡◌, refl, Bool, false, ◌||◌, ◌&&◌, Option, some, List, [], ◌∷◌, arith, dec_lt, All, not,
  add64,
}
use go_rtmfp.Range.{Range, range_contain, range_intersect, IsProper}
use go_rtmfp.Range.Bounds.{range_intersect-IsProper, range_contain-range_intersect}
use go_rtmfp.RangeQueue.{
  add_range, add_range_queue, subtract_range, subtract_range_queue, contain, intersect_with,
  intersect_loop, range_queue_intersect,
}
use go_rtmfp.RangeQueue.Valid.{IsValid}
use go_rtmfp.RangeQueue.Add.{add_range-Adds}
use go_rtmfp.RangeQueue.Subtract.{subtract_range-removes}

-- `o` is a valid queue that holds the positions for which `f` is true.
abbrev pub Holds : (ℕ → Bool) → Option (List Range) → Type 0
Holds f o = (q : List Range) × (o ≡ some q) × IsValid q × ((p : ℕ) → contain q p ≡ f p)

-- An empty range adds nothing.
add_range-empty : (q : List Range) (r : Range) → r.len ≡ 0 → add_range q r ≡ some q
unfolding add_range
add_range-empty q r e = ground arith

pub add_range_queue-Holds :
    (rs q : List Range)
    → IsValid q
    → All IsProper rs
    → Holds (λ p. contain rs p || contain q p) (add_range_queue q rs)
unfolding add_range_queue contain
add_range_queue-Holds [] q v h = (q, refl, v, λ p. refl)
add_range_queue-Holds (r ∷ rs) q v (hr, h) =
    let (q', e, v', holds) = add_range-Adds q r v hr in
    let (q'', e', v'', holds') = add_range_queue-Holds rs q' v' h in
    (q'', rw (e, add_range_queue) e', v'', λ p. ground (arith, holds p, holds' p))

empty-contain :
    (v w : Range) (p : ℕ)
    → (range_intersect v w).len ≡ 0
    → range_contain (range_intersect v w) p ≡ false
unfolding range_contain add64
empty-contain v w p h = ground arith

-- Adding what two proper ranges have in common, be it nothing.
add_common :
    (q : List Range) (v w : Range)
    → IsValid q
    → IsProper v
    → IsProper w
    → Holds
        (λ p. (range_contain v p && range_contain w p) || contain q p)
        (add_range q (range_intersect v w))
add_common q v w vq hv hw = elim (dec_lt 0 (range_intersect v w).len) [
  | yes some_common ↦
      let ir = range_intersect v w in
      let (q', e, v', holds) =
        add_range-Adds q ir vq (range_intersect-IsProper v w hv hw some_common) in
      (q', e, v', λ p. ground (arith, holds p, range_contain-range_intersect v w p hv hw))
  | no none_common ↦ (
    q,
    add_range-empty q _ (omega arith),
    vq,
    λ p.
        ground
          (arith, range_contain-range_intersect v w p hv hw, empty-contain v w p (omega arith)),
  )
]

intersect_with-Holds :
    (b rq : List Range) (v : Range)
    → IsValid rq
    → IsProper v
    → All IsProper b
    → Holds (λ p. (range_contain v p && contain b p) || contain rq p) (intersect_with rq v b)
unfolding intersect_with contain
intersect_with-Holds [] rq v vq hv h = (rq, refl, vq, λ p. ground arith)
intersect_with-Holds (w ∷ b) rq v vq hv (hw, h) =
    let (q', e, v', holds) = add_common rq v w vq hv hw in
    let (q'', e', v'', holds') = intersect_with-Holds b q' v v' hv h in
    (q'', rw (e, intersect_with) e', v'', λ p. ground (arith, holds p, holds' p))

intersect_loop-Holds :
    (a b rq : List Range)
    → IsValid rq
    → All IsProper a
    → All IsProper b
    → Holds (λ p. (contain a p && contain b p) || contain rq p) (intersect_loop rq a b)
unfolding intersect_loop contain
intersect_loop-Holds [] b rq vq h hb = (rq, refl, vq, λ p. refl)
intersect_loop-Holds (v ∷ a) b rq vq (hv, h) hb =
    let (q', e, v', holds) = intersect_with-Holds b rq v vq hv hb in
    let (q'', e', v'', holds') = intersect_loop-Holds a b q' v' h hb in
    (q'', rw (e, intersect_loop) e', v'', λ p. ground (arith, holds p, holds' p))

-- `RangeQueueIntersect` of two queues of proper ranges never panics, and gives a valid queue that
-- holds exactly the common positions.
range_queue_intersect-Holds :
    (a b : List Range)
    → All IsProper a
    → All IsProper b
    → Holds (λ p. contain a p && contain b p) (range_queue_intersect a b)
unfolding range_queue_intersect contain
range_queue_intersect-Holds a b ha hb =
    let (q, e, v, holds) = intersect_loop-Holds a b [] tt ha hb in
    (q, e, v, λ p. ground (arith, holds p))

-- `SubstractRangeQueue` of proper ranges from a valid queue gives a valid queue, which holds exactly the
-- positions that none of them holds.
subtract_range_queue-removes :
    (rs q : List Range)
    → IsValid q
    → All IsProper rs
    → IsValid (subtract_range_queue q rs)
      × ((p : ℕ) → contain (subtract_range_queue q rs) p ≡ (contain q p && not (contain rs p)))
unfolding subtract_range_queue contain
subtract_range_queue-removes [] q v h = (v, λ p. ground arith)
subtract_range_queue-removes (r ∷ rs) q v (hr, h) =
    let (v', holds) = subtract_range-removes q r v hr in
    let (v'', holds') = subtract_range_queue-removes rs (subtract_range q r) v' h in
    (v'', λ p. ground (arith, holds p, holds' p))
