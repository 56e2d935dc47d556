-- ===== src/ChunkHeap/Slice.antt =====
-- `data_chunk_heap` (src/rtmfp/data_chunk_heap.go): the methods that Go's container/heap calls, and what the package
-- makes of them.
use go_rtmfp.Prelude.{
  ℕ, ◌≡◌, Bool, false, Option, none, some, List, [], ◌∷◌, ◌++◌, ltb, ◌>>=◌, if◌then◌else◌, ◌==◌,
  ◌-◌, ◌<◌, length,
}
use go_rtmfp.DataChunk.{DataChunk}

-- `chunks[i]`, which panics out of range.
unfoldable pub chunk_at : ℕ → List DataChunk → Option DataChunk
chunk_at i [] = none
chunk_at i (c ∷ q) = if i == 0 then some c else chunk_at (i - 1) q

-- `chunks[i] = d`
unfoldable pub set_chunk : ℕ → DataChunk → List DataChunk → List DataChunk
set_chunk i d [] = []
set_chunk i d (c ∷ q) = if i == 0 then d ∷ q else c ∷ set_chunk (i - 1) d q

unfoldable pub before : DataChunk → DataChunk → Bool
before a b = ltb a.seq_num b.seq_num

-- `Less`
unfoldable pub less : List DataChunk → ℕ → ℕ → Option Bool
unfolding before
less q i j = chunk_at i q >>= λ a. chunk_at j q >>= λ b. some (before a b)

unfoldable pub swap : List DataChunk → ℕ → ℕ → Option (List DataChunk)
unfolding set_chunk
swap q i j =
    chunk_at i q >>= λ temp. chunk_at j q >>= λ b. some (set_chunk j temp (set_chunk i b q))

-- `Push`
unfoldable pub push_back : List DataChunk → DataChunk → List DataChunk
push_back q c = q ++ c ∷ []

-- `Pop`, which panics on an empty slice.
unfoldable pub pop_back : List DataChunk → Option (DataChunk × List DataChunk)
pop_back [] = none
pop_back (c ∷ []) = some (c, [])
pop_back (c ∷ d ∷ q) = pop_back (d ∷ q) >>= λ r. some (r.0, c ∷ r.1)

-- Calls of `Swap`, in order.
unfoldable pub swaps : List (ℕ × ℕ) → List DataChunk → Option (List DataChunk)
unfolding swap
swaps [] q = some q
swaps ((i, j) ∷ ps) q = swap q i j >>= swaps ps

-- container/heap, which reaches the slice by its methods alone: the calls of `Swap` that follow `Push` in `heap.Push`
-- and that come before `Pop` in `heap.Pop`, and the order in which the package keeps the slice. That order outlasts a
-- push; before `Pop` the calls leave a least element, by `Less`, at the end.
pub record Container : Type 1 where
  pub IsHeap : List DataChunk → Type 0
  pub push_swaps : List DataChunk → List (ℕ × ℕ)
  pub pop_swaps : List DataChunk → List (ℕ × ℕ)
  pub IsHeap-nil : IsHeap []
  pub push_swaps-IsHeap :
      (q : List DataChunk) (c : DataChunk)
      → IsHeap q
      → (r : List DataChunk) × (swaps (push_swaps (push_back q c)) (push_back q c) ≡ some r)
        × IsHeap r
  pub pop_swaps-least :
      (c : DataChunk) (q : List DataChunk)
      → IsHeap (c ∷ q)
      → (r : List DataChunk) × (d : DataChunk) × (swaps (pop_swaps (c ∷ q)) (c ∷ q)
          ≡ some (r ++ d ∷ []))
        × ((i : ℕ) → i < length r → less (r ++ d ∷ []) i (length r) ≡ some false)
        × IsHeap r

module _ (K : Container) where
  unfoldable pub push : List DataChunk → DataChunk → Option (List DataChunk)
  unfolding push_back swaps
  push q c = swaps (K.push_swaps (push_back q c)) (push_back q c)

  unfoldable pub pop : List DataChunk → Option (DataChunk × List DataChunk)
  unfolding swaps pop_back
  pop q = swaps (K.pop_swaps q) q >>= pop_back

abbrev pub create_data_chunk_heap : List DataChunk
create_data_chunk_heap = []
