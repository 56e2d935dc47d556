-- ===== src/Tests/Heap.antt =====
-- A list that is searched for its least chunk meets the interface of src/rtmfp/data_chunk_heap.go.
use go_rtmfp.Prelude.{
  ℕ, ◌+◌, ◌≡◌, ◌≤◌, refl, true, false, Option, none, some, List, [], ◌∷◌, All, leb, if◌then◌else◌,
  arith, dec_le,
}
use mathlib.Core.Path.{subst}
use go_rtmfp.DataChunk.{DataChunk}
use go_rtmfp.ChunkHeap.{ChunkHeap, total}

abbrev pub extract : DataChunk → List DataChunk → DataChunk × List DataChunk
extract c [] = (c, [])
extract c (d ∷ q) =
    let r = extract d q in if leb c.seq_num r.0.seq_num then (c, r.0 ∷ r.1) else (r.0, c ∷ r.1)

total-extract :
    (w : DataChunk → ℕ) (c : DataChunk) (q : List DataChunk)
    → total w (c ∷ q) ≡ w (extract c q).0 + total w (extract c q).1
total-extract w c [] = refl
total-extract w c (d ∷ q) = ground (arith, total-extract w d q)

All-le :
    (a b : ℕ) (q : List DataChunk) → a ≤ b → All (λ d. b ≤ d.seq_num) q → All (λ d. a ≤ d.seq_num) q
All-le a b [] h k = tt
All-le a b (d ∷ q) h (l, k) = (omega arith, All-le a b q h k)

extract-least :
    (c : DataChunk) (q : List DataChunk)
    → All (λ d. (extract c q).0.seq_num ≤ d.seq_num) (extract c q).1
extract-least c [] = tt
extract-least c (d ∷ q) = elim (dec_le c.seq_num (extract d q).0.seq_num) [
  | yes h ↦
      let e : leb c.seq_num (extract d q).0.seq_num ≡ true = ground arith in
      rw e (h, All-le c.seq_num (extract d q).0.seq_num (extract d q).1 h (extract-least d q))
  | no h ↦
      let e : leb c.seq_num (extract d q).0.seq_num ≡ false = ground arith in
      rw e (omega arith, extract-least d q)
]

abbrev pub pop_list : List DataChunk → Option (DataChunk × List DataChunk)
pop_list [] = none
pop_list (c ∷ q) = some (extract c q)

pub total-pop_list :
    (w : DataChunk → ℕ) (h h' : List DataChunk) (c : DataChunk)
    → pop_list h ≡ some (c, h')
    → total w h ≡ w c + total w h'
total-pop_list w [] h' c e = cc
total-pop_list w (d ∷ q) h' c e = ground (arith, total-extract w d q)

pub pop_list-least :
    (h h' : List DataChunk) (c : DataChunk)
    → pop_list h ≡ some (c, h')
    → All (λ d. c.seq_num ≤ d.seq_num) h'
pop_list-least [] h' c e = absurd (cc)
pop_list-least (d ∷ q) h' c e =
    let p : (extract d q ≡ (c, h')) = cc in
    subst (λ r. All (λ x. r.0.seq_num ≤ x.seq_num) r.1) p (extract-least d q)

pub pop_list-none : (h : List DataChunk) → pop_list h ≡ none → h ≡ []
pop_list-none [] e = refl
pop_list-none (d ∷ q) e = cc

abbrev pub list_heap : ChunkHeap
list_heap = record {
  Heap = List DataChunk;
  create = [];
  chunks = λ h. h;
  push = λ h c. c ∷ h;
  pop = pop_list;
  chunks-create = refl;
  total-push = λ w h c. refl;
  total-pop = total-pop_list;
  pop-least = pop_list-least;
  pop-none = pop_list-none;
}
