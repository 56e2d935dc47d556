-- ===== src/ChunkHeap.antt =====
-- What src/rtmfp/flow.go uses of `data_chunk_heap` (src/rtmfp/data_chunk_heap.go), which Go's
-- container/heap keeps: an interface with the laws that the package documents.
pub mod Slice
pub mod Sorts
pub mod Filled
use go_rtmfp.Prelude.{ℕ, ◌+◌, ◌≡◌, ◌≤◌, Option, none, some, List, [], ◌∷◌, All, ◌==◌, if◌then◌else◌}
use go_rtmfp.DataChunk.{DataChunk}

-- The sum of a weight over the chunks. Two heaps with equal sums for every weight hold the same
-- chunks, as often.
abbrev pub total : (DataChunk → ℕ) → List DataChunk → ℕ
total w [] = 0
total w (c ∷ q) = w c + total w q

-- How many chunks have the sequence number `p`.
abbrev pub has_seq : ℕ → DataChunk → ℕ
has_seq p c = if c.seq_num == p then 1 else 0

-- `chunks` lists the heap's slice in its order. `pop` answers `none` on an empty heap, on which the
-- source never calls it.
pub record ChunkHeap : Type 1 where
  pub Heap : Type 0
  pub create : Heap
  pub chunks : Heap → List DataChunk
  pub push : Heap → DataChunk → Heap
  pub pop : Heap → Option (DataChunk × Heap)
  pub chunks-create : chunks create ≡ []
  pub total-push :
      (w : DataChunk → ℕ) (h : Heap) (c : DataChunk)
      → total w (chunks (push h c)) ≡ w c + total w (chunks h)
  pub total-pop :
      (w : DataChunk → ℕ) (h h' : Heap) (c : DataChunk)
      → pop h ≡ some (c, h')
      → total w (chunks h) ≡ w c + total w (chunks h')
  pub pop-least :
      (h h' : Heap) (c : DataChunk)
      → pop h ≡ some (c, h')
      → All (λ d. c.seq_num ≤ d.seq_num) (chunks h')
  pub pop-none : (h : Heap) → pop h ≡ none → chunks h ≡ []
