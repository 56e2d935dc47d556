-- ===== src/RangeQueue/Valid.antt =====
-- The invariant of a queue.
use go_rtmfp.Prelude.{ℕ, ◌+◌, ◌≤◌, ◌<◌, ◌≡◌, refl, List, [], ◌∷◌, ◌++◌, ◌||◌, false, arith}
use go_rtmfp.Range.{Range, IsProper}
use go_rtmfp.Range.Bounds.{range_contain_iff}
use go_rtmfp.RangeQueue.{contain}

-- Proper ranges from `lo` on, in order, with a gap between any two.
abbrev pub IsValidFrom : ℕ → List Range → Type 0
IsValidFrom lo [] = Unit {0}
IsValidFrom lo (v ∷ q) = (lo ≤ v.pos) × IsProper v × IsValidFrom (v.pos + v.len + 1) q

abbrev pub IsValid : List Range → Type 0
IsValid q = IsValidFrom 0 q

pub IsValidFrom-le : (lo lo' : ℕ) (q : List Range) → lo' ≤ lo → IsValidFrom lo q → IsValidFrom lo' q
IsValidFrom-le lo lo' [] h v = tt
IsValidFrom-le lo lo' (r ∷ q) h (k, hr, kq) = (omega arith, hr, kq)

-- Every range ends at `e` or before.
abbrev pub EndsBy : ℕ → List Range → Type 0
EndsBy e [] = Unit {0}
EndsBy e (v ∷ q) = (v.pos + v.len ≤ e) × EndsBy e q

pub IsValidFrom-append :
    (lo e : ℕ) (a q : List Range)
    → lo ≤ e + 1
    → IsValidFrom lo a
    → EndsBy e a
    → IsValidFrom (e + 1) q
    → IsValidFrom lo (a ++ q)
IsValidFrom-append lo e [] q h va ea vq = IsValidFrom-le (e + 1) lo q h vq
IsValidFrom-append lo e (v ∷ a) q h (k, hv, va) (ev, ea) vq =
    (k, hv, IsValidFrom-append (v.pos + v.len + 1) e a q (omega arith) va ea vq)

pub contain-append : (a q : List Range) (p : ℕ) → contain (a ++ q) p ≡ (contain a p || contain q p)
unfolding contain
contain-append [] q p = refl
contain-append (v ∷ a) q p = ground (arith, contain-append a q p)

-- A valid queue from `lo` on holds nothing below `lo`.
pub contain-below :
    (lo : ℕ) (q : List Range) (p : ℕ) → IsValidFrom lo q → p < lo → contain q p ≡ false
unfolding contain
contain-below lo [] p v h = refl
contain-below lo (v ∷ q) p (k, hv, vq) h =
    ground (arith, range_contain_iff v p hv, contain-below (v.pos + v.len + 1) q p vq)
