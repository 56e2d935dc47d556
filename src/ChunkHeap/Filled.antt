-- ===== src/ChunkHeap/Filled.antt =====
-- `data_chunk_heap` of src/rtmfp/data_chunk_heap.go fills the interface that the receiving flow takes.
use go_rtmfp.Prelude.{
  ℕ, ◌+◌, ◌≡◌, ◌≤◌, refl, Option, none, some, List, [], ◌∷◌, All, some_inj, ◌>>=◌,
}
use mathlib.Core.Path.{subst}
use go_rtmfp.DataChunk.{DataChunk}
use go_rtmfp.ChunkHeap.{ChunkHeap, total}
use go_rtmfp.ChunkHeap.Slice.{
  Container, push, pop, pop_back, swap, swaps, chunk_at, create_data_chunk_heap,
}
use go_rtmfp.ChunkHeap.Sorts.{push-total, pop-parts}

module _ (K : Container) where
  -- A slice in the package's order.
  abbrev pub Slice : Type 0
  Slice = (q : List DataChunk) × K.IsHeap q

  abbrev pub push_slice : Slice → DataChunk → Slice
  push_slice (q, h) c = let (r, e, t, k) = push-total K q c h in (r, k)

  abbrev pub pop_slice : Slice → Option (DataChunk × Slice)
  pop_slice ([], h) = none
  pop_slice (c ∷ q, h) = let (d, r, e, t, l, k) = pop-parts K c q h in some (d, (r, k))

  pub total-pop_slice :
      (w : DataChunk → ℕ) (h h' : Slice) (c : DataChunk)
      → pop_slice h ≡ some (c, h')
      → total w h.0 ≡ w c + total w h'.0
  total-pop_slice w ([], h) h' c e = absurd (cc)
  total-pop_slice w (d ∷ q, h) h' c e =
      subst (λ r. total w (d ∷ q) ≡ w r.0 + total w r.1.0) (some_inj e) ((pop-parts K d q h).3 w)

  pub pop_slice-least :
      (h h' : Slice) (c : DataChunk)
      → pop_slice h ≡ some (c, h')
      → All (λ d. c.seq_num ≤ d.seq_num) h'.0
  pop_slice-least ([], h) h' c e = absurd (cc)
  pop_slice-least (d ∷ q, h) h' c e =
      subst (λ (r : DataChunk × Slice). All (λ x. r.0.seq_num ≤ x.seq_num) r.1.0) (some_inj e)
        (pop-parts K d q h).4

  pub pop_slice-none : (h : Slice) → pop_slice h ≡ none → h.0 ≡ []
  pop_slice-none ([], h) e = refl
  pop_slice-none (d ∷ q, h) e = absurd (cc)

  abbrev pub slice_heap : ChunkHeap
  slice_heap = record {
    Heap = Slice;
    create = (create_data_chunk_heap, K.IsHeap-nil);
    chunks = λ h. h.0;
    push = push_slice;
    pop = pop_slice;
    chunks-create = refl;
    total-push = λ w h c. (push-total K h.0 c h.1).2 w;
    total-pop = total-pop_slice;
    pop-least = pop_slice-least;
    pop-none = pop_slice-none;
  }

pop_back-swaps_nil : (ps : List (ℕ × ℕ)) → (swaps ps [] >>= pop_back) ≡ none
unfolding swaps pop_back swap chunk_at
pop_back-swaps_nil [] = refl
pop_back-swaps_nil (p ∷ ps) = refl

-- Without the order of the slice.
abbrev pub popped :
    (K : Container) → Option (DataChunk × Slice K) → Option (DataChunk × List DataChunk)
popped K none = none
popped K (some (c, h)) = some (c, h.0)

-- The interface that the receiving flow is proved over is met by the source's heap: on every slice that container/heap
-- keeps, push never panics and is the interface's push, and pop panics where the interface has no chunk and is its pop
-- elsewhere.
slice_heap-push-pop :
    (K : Container) (h : Slice K) (c : DataChunk)
    → (push K h.0 c ≡ some ((slice_heap K).push h c).0)
      × (pop K h.0 ≡ popped K ((slice_heap K).pop h))
unfolding pop
slice_heap-push-pop K ([], h) c = ((push-total K [] c h).1, pop_back-swaps_nil (K.pop_swaps []))
slice_heap-push-pop K (d ∷ q, h) c = ((push-total K (d ∷ q) c h).1, (pop-parts K d q h).2)
