-- ===== src/Tests/Slice.antt =====
-- An order that container/heap could keep over src/rtmfp/data_chunk_heap.go: none, with a pass of exchanges of
-- neighbours before each `Pop`.
use go_rtmfp.Prelude.{
  ℕ, ◌+◌, ◌≡◌, ◌≤◌, ◌<◌, ◌∙◌, zero, suc, ap, length, refl, inl, inr, false, Option, none, some,
  List, [], ◌∷◌, ◌++◌, All, ◌>>=◌, if◌then◌else◌, arith, Bool-cases,
}
use go_rtmfp.DataChunk.{DataChunk, new_chunk, fc_whole}
use go_rtmfp.ChunkHeap.{total}
use go_rtmfp.ChunkHeap.Slice.{
  chunk_at, set_chunk, before, less, swap, swaps, push_back, Container, create_data_chunk_heap,
}
use go_rtmfp.ChunkHeap.Sorts.{less-first, less-next, push_all, drain, IsSorted, drain-push_all}

abbrev pub up : List (ℕ × ℕ) → List (ℕ × ℕ)
up [] = []
up ((i, j) ∷ ps) = (i + 1, j + 1) ∷ up ps

chunk_at-up : (c : DataChunk) (q : List DataChunk) (i : ℕ) → chunk_at (i + 1) (c ∷ q) ≡ chunk_at i q
unfolding chunk_at
chunk_at-up c q i = ground arith

set_chunk-up :
    (c d : DataChunk) (q : List DataChunk) (i : ℕ)
    → set_chunk (i + 1) d (c ∷ q) ≡ c ∷ set_chunk i d q
unfolding set_chunk
set_chunk-up c d q i = ground arith

swap_parts :
    (c : DataChunk) (q : List DataChunk) (i j : ℕ) (a b : Option DataChunk)
    → (a >>= λ temp. b >>= λ d. some (set_chunk (j + 1) temp (set_chunk (i + 1) d (c ∷ q))))
      ≡ ((a >>= λ temp. b >>= λ d. some (set_chunk j temp (set_chunk i d q))) >>= λ r. some (c ∷ r))
swap_parts c q i j none b = refl
swap_parts c q i j (some a) none = refl
swap_parts c q i j (some a) (some b) =
    rw (set_chunk-up c b q i, set_chunk-up c a (set_chunk i b q) j) refl

swap-up :
    (c : DataChunk) (q : List DataChunk) (i j : ℕ)
    → swap (c ∷ q) (i + 1) (j + 1) ≡ (swap q i j >>= λ r. some (c ∷ r))
unfolding swap
swap-up c q i j =
    rw (chunk_at-up c q i, chunk_at-up c q j) (swap_parts c q i j (chunk_at i q) (chunk_at j q))

later_swaps :
    (c : DataChunk) (ps : List (ℕ × ℕ)) (o : Option (List DataChunk))
    → ((r : List DataChunk) → swaps (up ps) (c ∷ r) ≡ (swaps ps r >>= λ r'. some (c ∷ r')))
    → ((o >>= λ r. some (c ∷ r)) >>= swaps (up ps)) ≡ ((o >>= swaps ps) >>= λ r. some (c ∷ r))
later_swaps c ps none same = refl
later_swaps c ps (some r) same = same r

swaps-up :
    (c : DataChunk) (ps : List (ℕ × ℕ)) (q : List DataChunk)
    → swaps (up ps) (c ∷ q) ≡ (swaps ps q >>= λ r. some (c ∷ r))
unfolding swaps
swaps-up c [] q = refl
swaps-up c ((i, j) ∷ ps) q = rw (swap-up c q i j) (later_swaps c ps (swap q i j) (swaps-up c ps))

abbrev pub bubble_swaps : DataChunk → List DataChunk → List (ℕ × ℕ)
bubble_swaps c [] = []
bubble_swaps c (d ∷ q) =
    if before c d then (0, 1) ∷ up (bubble_swaps c q) else up (bubble_swaps d q)

abbrev pub bubble : DataChunk → List DataChunk → List DataChunk × DataChunk
bubble c [] = ([], c)
bubble c (d ∷ q) =
    let kept = bubble c q in
    let passed = bubble d q in if before c d then (d ∷ kept.0, kept.1) else (c ∷ passed.0, passed.1)

first_swap : (c d : DataChunk) (q : List DataChunk) → swap (c ∷ d ∷ q) 0 1 ≡ some (d ∷ c ∷ q)
unfolding swap chunk_at set_chunk
first_swap c d q = refl

bubble_swaps-bubble :
    (c : DataChunk) (q : List DataChunk)
    → swaps (bubble_swaps c q) (c ∷ q) ≡ some ((bubble c q).0 ++ (bubble c q).1 ∷ [])
unfolding swaps
bubble_swaps-bubble c [] = refl
bubble_swaps-bubble c (d ∷ q) = elim (Bool-cases (before c d)) [
  | inl e ↦
      rw (e, first_swap c d q, swaps-up d (bubble_swaps c q) (c ∷ q), bubble_swaps-bubble c q) refl
  | inr e ↦ rw (e, swaps-up c (bubble_swaps d q) (d ∷ q), bubble_swaps-bubble d q) refl
]

bubble-bound : (c : DataChunk) (q : List DataChunk) → (bubble c q).1.seq_num ≤ c.seq_num
unfolding before
bubble-bound c [] = omega arith
bubble-bound c (d ∷ q) = ground (arith, bubble-bound c q, bubble-bound d q)

bubble-least :
    (c : DataChunk) (q : List DataChunk) → All (λ e. before e (bubble c q).1 ≡ false) (bubble c q).0
bubble-least c [] = tt
bubble-least c (d ∷ q) = elim (Bool-cases (before c d)) [
  | inl e ↦ rw e (unfold before in ground (arith, bubble-bound c q), bubble-least c q)
  | inr e ↦ rw e (unfold before in ground (arith, bubble-bound d q), bubble-least d q)
]

-- What is not before the last chunk is not less at any index.
not_before-less :
    (d : DataChunk) (q : List DataChunk)
    → All (λ e. before e d ≡ false) q
    → (i : ℕ) → i < length q
    → less (q ++ d ∷ []) i (length q) ≡ some false
not_before-less d [] h i k = absurd (omega arith)
not_before-less d (e ∷ q) (h, hs) zero k = less-first e d q ∙ ap some h
not_before-less d (e ∷ q) (h, hs) (suc i) k =
    less-next e (q ++ d ∷ []) i (length q) ∙ not_before-less d q hs i (omega arith)

abbrev pub pop_swaps : List DataChunk → List (ℕ × ℕ)
pop_swaps [] = []
pop_swaps (c ∷ q) = bubble_swaps c q

no_swaps : (q : List DataChunk) → swaps [] q ≡ some q
unfolding swaps
no_swaps q = refl

abbrev bubbles : Container
bubbles = record {
  IsHeap = λ q. Unit {0};
  push_swaps = λ q. [];
  pop_swaps = pop_swaps;
  IsHeap-nil = tt;
  push_swaps-IsHeap = λ q c h. (push_back q c, no_swaps (push_back q c), tt);
  pop_swaps-least = λ c q h. (
    (bubble c q).0,
    (bubble c q).1,
    bubble_swaps-bubble c q,
    not_before-less (bubble c q).1 (bubble c q).0 (bubble-least c q),
    tt,
  );
}

abbrev three : List DataChunk
three =
    new_chunk fc_whole 5 (1 ∷ [])
    ∷ new_chunk fc_whole 2 (2 ∷ [])
    ∷ new_chunk fc_whole 9 (3 ∷ [])
    ∷ []

drain-push_all_example :
    (h : List DataChunk) × (r : List DataChunk) × (push_all bubbles three create_data_chunk_heap
      ≡ some h)
    × (drain bubbles 3 h ≡ some (r, []))
    × ((w : DataChunk → ℕ) → total w r ≡ total w three)
    × IsSorted r
drain-push_all_example = drain-push_all bubbles three
