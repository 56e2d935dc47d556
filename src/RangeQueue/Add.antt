-- ===== src/RangeQueue/Add.antt =====
-- `AddRange` and `concat` on a valid queue.
use go_rtmfp.Prelude.{
  ℕ, ◌+◌, ◌≤◌, ◌<◌, ◌≡◌, refl, Bool, true, false, ◌||◌, Option, some, List, [], ◌∷◌, arith, inl,
  inr, ◌==◌, Bool-cases, ◌>>=◌, ◌∙◌, dec_lt,
}
use go_rtmfp.Range.{Range, range_contain, can_range_merge, IsProper}
use go_rtmfp.Range.Bounds.{
  hull, hull-IsProper, range_merge-hull, range_contain-hull, can_range_merge_iff,
}
use go_rtmfp.RangeQueue.{concat_from, insert_range, settle, add_range, contain}
use go_rtmfp.RangeQueue.Valid.{IsValidFrom, IsValidFrom-le, IsValid}

-- `o` is a valid queue from `lo` on that holds the positions of `r` and those of `q`.
abbrev pub Adds : ℕ → Range → List Range → Option (List Range) → Type 0
Adds lo r q o =
    (q' : List Range) × (o ≡ some q')
    × IsValidFrom lo q'
    × ((p : ℕ) → contain q' p ≡ (range_contain r p || contain q p))

concat_from-merge :
    (v w : Range) (q : List Range)
    → IsProper v
    → IsProper w
    → can_range_merge v w ≡ true
    → concat_from v (w ∷ q) ≡ concat_from (hull v w) q
unfolding concat_from
concat_from-merge v w q hv hw e = ground (arith, range_merge-hull v w hv hw)

concat_from-next :
    (v w : Range) (q : List Range)
    → can_range_merge v w ≡ false
    → concat_from v (w ∷ q) ≡ (concat_from w q >>= λ q'. some (v ∷ q'))
unfolding concat_from
concat_from-next v w q e = ground arith

-- A queue whose ranges come in order, with a first range that may reach into what follows.
pub concat_from-Adds :
    (q : List Range) (v : Range) (lo : ℕ)
    → IsProper v
    → v.pos < lo
    → IsValidFrom lo q
    → Adds v.pos v q (concat_from v q)
unfolding contain
concat_from-Adds [] v lo hv h k =
    (v ∷ [], unfold concat_from in refl, omega arith, λ p. ground arith)
concat_from-Adds (w ∷ q) v lo hv h (k, hw, kq) = elim (Bool-cases (can_range_merge v w)) [
  | inl e ↦
      let ih =
        concat_from-Adds q (hull v w) (w.pos + w.len + 1) (hull-IsProper v w hv hw) (omega arith)
          kq in
      (
        ih.0,
        concat_from-merge v w q hv hw e ∙ ih.1,
        IsValidFrom-le _ v.pos ih.0 (omega arith) ih.2,
        λ p. ground (arith, ih.3 p, range_contain-hull v w p hv hw e),
      )
  | inr e ↦
      let ih = concat_from-Adds q w (w.pos + w.len + 1) hw (omega arith) kq in
      (
        v ∷ ih.0,
        concat_from-next v w q e ∙ rw (ih.1),
        (
          omega arith,
          hv,
          IsValidFrom-le w.pos _ ih.0 (ground (arith, can_range_merge_iff v w hv hw)) ih.2,
        ),
        λ p. ground (arith, ih.3 p),
      )
]

-- The first range of a list is proper and starts at `lo` or later.
abbrev StartsFrom : ℕ → List Range → Type 0
StartsFrom lo [] = Unit {0}
StartsFrom lo (v ∷ q) = (lo ≤ v.pos) × IsProper v

insert_range-StartsFrom :
    (lo : ℕ) (q : List Range) (r : Range)
    → IsValidFrom lo q
    → IsProper r
    → lo ≤ r.pos
    → StartsFrom lo (insert_range q r).0
unfolding insert_range
insert_range-StartsFrom lo [] r v hr h = (h, hr)
insert_range-StartsFrom lo (w ∷ q) r (k, hw, kq) hr h = ground arith

-- A first range that ends before the next one stays as it is.
settle-cons :
    (w : Range) (q : List Range) (m : Bool)
    → IsProper w
    → StartsFrom (w.pos + w.len + 1) q
    → settle (w ∷ q, m) ≡ (settle (q, m) >>= λ q'. some (w ∷ q'))
unfolding settle
settle-cons w [] m hw h = unfold concat_from in ground arith
settle-cons w (x ∷ q) false hw h = refl
settle-cons w (x ∷ q) true hw (h, hx) =
    concat_from-next w x q (ground (arith, can_range_merge_iff w x hw hx))

Adds-cons :
    (lo' : ℕ) (w r : Range) (q : List Range) (m : List Range × Bool)
    → IsProper w
    → lo' ≤ w.pos
    → StartsFrom (w.pos + w.len + 1) m.0
    → Adds (w.pos + w.len + 1) r q (settle m)
    → Adds lo' r (w ∷ q) (settle (w ∷ m.0, m.1))
unfolding contain
Adds-cons lo' w r q (l, m) hw h k (q', e, valid, holds) =
    (w ∷ q', settle-cons w l m hw k ∙ rw e, (h, hw, valid), λ p. ground (arith, holds p))

insert_range-before :
    (w : Range) (q : List Range) (r : Range)
    → can_range_merge w r ≡ false
    → r.pos < w.pos
    → settle (insert_range (w ∷ q) r) ≡ some (r ∷ w ∷ q)
unfolding insert_range settle
insert_range-before w q r e h = ground arith

insert_range-after :
    (w : Range) (q : List Range) (r : Range)
    → can_range_merge w r ≡ false
    → w.pos ≤ r.pos
    → insert_range (w ∷ q) r ≡ (w ∷ (insert_range q r).0, (insert_range q r).1)
unfolding insert_range
insert_range-after w q r e h = ground arith

insert_range-Adds :
    (q : List Range) (r : Range) (lo lo' : ℕ)
    → IsValidFrom lo q
    → IsProper r
    → lo' ≤ lo
    → lo' ≤ r.pos
    → Adds lo' r q (settle (insert_range q r))
unfolding contain
insert_range-Adds [] r lo lo' v hr h h' =
    (r ∷ [], unfold insert_range settle in refl, omega arith, λ p. ground arith)
insert_range-Adds (w ∷ q) r lo lo' (k, hw, kq) hr h h' = elim (Bool-cases (can_range_merge w r)) [
  | inl e ↦
      let e' : can_range_merge r w ≡ true =
        ground (arith, can_range_merge_iff w r hw hr, can_range_merge_iff r w hr hw) in
      let (q', s, valid, holds) =
        concat_from-Adds q (hull r w) (w.pos + w.len + 1) (hull-IsProper r w hr hw) (omega arith)
          kq in
      (
        q',
        unfold insert_range settle in rw e (concat_from-merge r w q hr hw e' ∙ s),
        IsValidFrom-le _ lo' q' (omega arith) valid,
        λ p. ground (arith, holds p, range_contain-hull r w p hr hw e'),
      )
  | inr e ↦ elim (dec_lt r.pos w.pos) [
    | yes before ↦ (
      r ∷ w ∷ q,
      insert_range-before w q r e before,
      (h', hr, (ground (arith, can_range_merge_iff w r hw hr), hw, kq)),
      λ p. ground arith,
    )
    | no after ↦
        let gap : w.pos + w.len + 1 ≤ r.pos = ground (arith, can_range_merge_iff w r hw hr) in
        rw (insert_range-after w q r e (omega arith)) (
          Adds-cons lo' w r q (insert_range q r) hw (omega arith)
            (insert_range-StartsFrom (w.pos + w.len + 1) q r kq hr gap)
            (insert_range-Adds q r _ (w.pos + w.len + 1) kq hr (omega arith) gap))
  ]
]

-- On a valid queue and for a range that is not empty and ends below 2 ^ 63, `AddRange` never panics: it gives a valid queue, which holds the positions of
-- the range that was added and those of the queue, and no others.
pub add_range-Adds :
    (q : List Range) (r : Range) → IsValid q → IsProper r → Adds 0 r q (add_range q r)
unfolding add_range
add_range-Adds q r v hr =
    let some_len : (r.len == 0) ≡ false = ground arith in
    rw some_len (insert_range-Adds q r 0 0 v hr (omega arith) (omega arith))
