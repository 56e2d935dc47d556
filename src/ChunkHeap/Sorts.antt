-- ===== src/ChunkHeap/Sorts.antt =====
-- What the heap of src/rtmfp/data_chunk_heap.go gives back.
use go_rtmfp.Prelude.{
  zero, suc, ℕ, ◌+◌, ◌≡◌, ◌≤◌, ◌<◌, refl, sym, ◌∙◌, false, Option, some, List, [], ◌∷◌, ◌++◌, All,
  ltb, length, ◌>>=◌, some_inj, bind_some, if◌then◌else◌, arith, ◌-◌,
}
use go_rtmfp.DataChunk.{DataChunk}
use go_rtmfp.ChunkHeap.{total}
use go_rtmfp.ChunkHeap.Slice.{
  chunk_at, set_chunk, before, less, swap, push_back, pop_back, swaps, Container, push, pop,
  create_data_chunk_heap,
}

total-set_chunk :
    (w : DataChunk → ℕ) (i : ℕ) (q : List DataChunk) (a b : DataChunk)
    → chunk_at i q ≡ some a
    → total w (set_chunk i b q) + w a ≡ total w q + w b
unfolding chunk_at set_chunk
total-set_chunk w i [] a b e = absurd (cc)
total-set_chunk w i (c ∷ q) a b e = ground (arith, total-set_chunk w (i - 1) q a b)

chunk_at-set_chunk :
    (i j : ℕ) (q : List DataChunk) (b : DataChunk)
    → chunk_at j q ≡ some b
    → chunk_at j (set_chunk i b q) ≡ some b
unfolding chunk_at set_chunk
chunk_at-set_chunk i j [] b e = e
chunk_at-set_chunk i j (c ∷ q) b e = ground (arith, chunk_at-set_chunk (i - 1) (j - 1) q b)

total-swap :
    (w : DataChunk → ℕ) (i j : ℕ) (q r : List DataChunk)
    → swap q i j ≡ some r
    → total w r ≡ total w q
unfolding swap
total-swap w i j q r e =
    let (a, ea, k) =
      bind_some (chunk_at i q) (λ a. chunk_at j q >>= λ b. some (set_chunk j a (set_chunk i b q)))
        e in
    let (b, eb, l) = bind_some (chunk_at j q) (λ b. some (set_chunk j a (set_chunk i b q))) k in
    let m : set_chunk j a (set_chunk i b q) ≡ r = some_inj l in
    let n = total-set_chunk w j (set_chunk i b q) b a (chunk_at-set_chunk i j q b eb) in
    rw⁻¹ m (omega (arith, n, total-set_chunk w i q a b ea))

total-swaps :
    (w : DataChunk → ℕ) (ps : List (ℕ × ℕ)) (q r : List DataChunk)
    → swaps ps q ≡ some r
    → total w r ≡ total w q
unfolding swaps
total-swaps w [] q r e = cc
total-swaps w ((i, j) ∷ ps) q r e =
    let (q', e', k) = bind_some (swap q i j) (swaps ps) e in
    total-swaps w ps q' r k ∙ total-swap w i j q q' e'

total-snoc :
    (w : DataChunk → ℕ) (q : List DataChunk) (c : DataChunk)
    → total w (q ++ c ∷ []) ≡ w c + total w q
total-snoc w [] c = refl
total-snoc w (d ∷ q) c = omega (arith, total-snoc w q c)

pop_back-snoc : (q : List DataChunk) (c : DataChunk) → pop_back (q ++ c ∷ []) ≡ some (c, q)
unfolding pop_back
pop_back-snoc [] c = refl
pop_back-snoc (d ∷ []) c = refl
pop_back-snoc (d ∷ e ∷ q) c = rw (pop_back-snoc (e ∷ q) c) refl

pub chunk_at-last :
    (q : List DataChunk) (d : DataChunk) → chunk_at (length q) (q ++ d ∷ []) ≡ some d
unfolding chunk_at
chunk_at-last [] d = refl
chunk_at-last (c ∷ q) d = ground (arith, chunk_at-last q d)

pub chunk_at-next :
    (c : DataChunk) (q : List DataChunk) (i : ℕ) → chunk_at (suc i) (c ∷ q) ≡ chunk_at i q
unfolding chunk_at
chunk_at-next c q i = ground arith

chunk_at-first : (c : DataChunk) (q : List DataChunk) → chunk_at 0 (c ∷ q) ≡ some c
unfolding chunk_at
chunk_at-first c q = refl

pub less-next :
    (c : DataChunk) (q : List DataChunk) (i j : ℕ) → less (c ∷ q) (suc i) (suc j) ≡ less q i j
unfolding less
less-next c q i j = rw (chunk_at-next c q i, chunk_at-next c q j) refl

pub less-first :
    (e d : DataChunk) (q : List DataChunk)
    → less ((e ∷ q) ++ d ∷ []) 0 (suc (length q)) ≡ some (before e d)
unfolding less
less-first e d q =
    rw (chunk_at-first e (q ++ d ∷ []), chunk_at-next e (q ++ d ∷ []) (length q), chunk_at-last q d)
      refl

-- Where nothing is less than the last chunk, no number is below its number.
not_less :
    (d : DataChunk) (q : List DataChunk)
    → ((i : ℕ) → i < length q → less (q ++ d ∷ []) i (length q) ≡ some false)
    → All (λ e. d.seq_num ≤ e.seq_num) q
unfolding before
not_less d [] h = tt
not_less d (e ∷ q) h =
    let least : before e d ≡ false = some_inj (sym (less-first e d q) ∙ h 0 (omega arith)) in
    (
      ground arith,
      not_less d q (λ i k. sym (less-next e (q ++ d ∷ []) i (length q)) ∙ h (suc i) (omega arith)),
    )

module _ (K : Container) where
  pub push-total :
      (q : List DataChunk) (c : DataChunk)
      → K.IsHeap q
      → (r : List DataChunk) × (push K q c ≡ some r)
        × ((w : DataChunk → ℕ) → total w r ≡ w c + total w q)
        × K.IsHeap r
  unfolding push push_back
  push-total q c h =
      let (r, e, k) = K.push_swaps-IsHeap q c h in
      (
        r,
        e,
        (λ w. total-swaps w (K.push_swaps (push_back q c)) (push_back q c) r e ∙ total-snoc w q c),
        k,
      )

  pub pop-parts :
      (c : DataChunk) (q : List DataChunk)
      → K.IsHeap (c ∷ q)
      → (d : DataChunk) × (r : List DataChunk) × (pop K (c ∷ q) ≡ some (d, r))
        × ((w : DataChunk → ℕ) → total w (c ∷ q) ≡ w d + total w r)
        × All (λ e. d.seq_num ≤ e.seq_num) r
        × K.IsHeap r
  unfolding pop
  pop-parts c q h =
      let (r, d, e, l, k) = K.pop_swaps-least c q h in
      (
        d,
        r,
        rw (e, pop_back-snoc) refl,
        (λ w. sym (total-swaps w (K.pop_swaps (c ∷ q)) (c ∷ q) (r ++ d ∷ []) e) ∙ total-snoc w r d),
        not_less d r l,
        k,
      )

-- One for each chunk below the number.
abbrev below : ℕ → DataChunk → ℕ
below n c = if ltb c.seq_num n then 1 else 0

none_below : (n : ℕ) (q : List DataChunk) → All (λ e. n ≤ e.seq_num) q → total (below n) q ≡ 0
none_below n [] h = refl
none_below n (c ∷ q) (h, hs) = ground (arith, none_below n q hs)

below-none : (n : ℕ) (q : List DataChunk) → total (below n) q ≡ 0 → All (λ e. n ≤ e.seq_num) q
below-none n [] e = tt
below-none n (c ∷ q) e = (ground arith, below-none n q (omega arith))

total-length : (q : List DataChunk) → total (λ c. 1) q ≡ length q
total-length [] = refl
total-length (c ∷ q) = omega (arith, total-length q)

abbrev pub IsSorted : List DataChunk → Type 0
IsSorted [] = Unit {0}
IsSorted (c ∷ q) = All (λ e. c.seq_num ≤ e.seq_num) q × IsSorted q

abbrev pub push_all : Container → List DataChunk → List DataChunk → Option (List DataChunk)
push_all K [] q = some q
push_all K (c ∷ cs) q = push K q c >>= push_all K cs

abbrev pub drain : Container → ℕ → List DataChunk → Option (List DataChunk × List DataChunk)
drain K zero q = some ([], q)
drain K (suc n) q = pop K q >>= λ r. drain K n r.1 >>= λ s. some (r.0 ∷ s.0, s.1)

push_all-total :
    (K : Container) (cs q : List DataChunk)
    → K.IsHeap q
    → (r : List DataChunk) × (push_all K cs q ≡ some r)
      × ((w : DataChunk → ℕ) → total w r ≡ total w cs + total w q)
      × K.IsHeap r
push_all-total K [] q h = (q, refl, (λ w. omega arith), h)
push_all-total K (c ∷ cs) q h =
    let (q', e, t, k) = push-total K q c h in
    let (r, e', t', k') = push_all-total K cs q' k in
    (r, rw (e, e') refl, (λ w. omega (arith, t w, t' w)), k')

drain-sorts :
    (K : Container) (n : ℕ) (q : List DataChunk)
    → K.IsHeap q
    → length q ≡ n
    → (r : List DataChunk) × (drain K n q ≡ some (r, []))
      × ((w : DataChunk → ℕ) → total w r ≡ total w q)
      × IsSorted r
drain-sorts K zero [] h e = ([], refl, (λ w. refl), tt)
drain-sorts K zero (c ∷ q) h e = absurd (omega arith)
drain-sorts K (suc n) [] h e = absurd (omega arith)
drain-sorts K (suc n) (c ∷ q) h e =
    let (d, q', p, t, l, k) = pop-parts K c q h in
    let t1 = t (λ x. 1) in
    let (r, p', t', s) =
      drain-sorts K n q' k (omega (arith, t1, total-length q, total-length q')) in
    let z = t' (below d.seq_num) in
    (
      d ∷ r,
      rw (p, p') refl,
      (λ w. omega (arith, t w, t' w)),
      (below-none d.seq_num r (z ∙ none_below d.seq_num q' l), s),
    )

-- Whatever order container/heap keeps within its documentation: pushing chunks onto a new heap and popping as often
-- never panics, gives the same chunks, each as often as it was pushed, in the order of their sequence numbers, and
-- leaves the heap empty.
pub drain-push_all :
    (K : Container) (cs : List DataChunk)
    → (h : List DataChunk) × (r : List DataChunk) × (push_all K cs create_data_chunk_heap ≡ some h)
      × (drain K (length cs) h ≡ some (r, []))
      × ((w : DataChunk → ℕ) → total w r ≡ total w cs)
      × IsSorted r
drain-push_all K cs =
    let (h, e, t, k) = push_all-total K cs [] K.IsHeap-nil in
    let t1 = t (λ x. 1) in
    let (r, e', t', s) =
      drain-sorts K (length cs) h k (omega (arith, t1, total-length h, total-length cs)) in
    (h, r, e, e', (λ w. omega (arith, t w, t' w)), s)
