-- ===== src/RecvFlow/Alike.antt =====
-- Chunks of src/rtmfp/flow.go that agree in number, fragment control and bytes, and runs of them.
use go_rtmfp.Prelude.{
  ℕ, ◌+◌, ◌<◌, ◌≤◌, ◌≡◌, refl, sym, ◌∙◌, Bool, true, false, ◌&&◌, ◌||◌, List, [], ◌∷◌, ◌++◌, ◌==◌,
  All, arith, length, dec_lt,
}
use go_rtmfp.DataChunk.{DataChunk}
use go_rtmfp.Message.{IsRest, IsMessage, joined}
use go_rtmfp.RecvFlow.Order.{Run}

-- The same bytes.
abbrev pub same_bytes : List ℕ → List ℕ → Bool
same_bytes [] [] = true
same_bytes [] (b ∷ r) = false
same_bytes (a ∷ q) [] = false
same_bytes (a ∷ q) (b ∷ r) = a == b && same_bytes q r

-- The same number, fragment control and bytes.
abbrev pub same_chunk : DataChunk → DataChunk → Bool
same_chunk d c =
    d.seq_num == c.seq_num && (d.frag_ctrl == c.frag_ctrl && same_bytes d.payload c.payload)

abbrev pub among : List DataChunk → DataChunk → Bool
among [] c = false
among (d ∷ q) c = same_chunk d c || among q c

pub same_bytes-≡ : (q r : List ℕ) → same_bytes q r ≡ true → q ≡ r
same_bytes-≡ [] [] e = refl
same_bytes-≡ [] (b ∷ r) e = cc
same_bytes-≡ (a ∷ q) [] e = cc
same_bytes-≡ (a ∷ q) (b ∷ r) e = ground (arith, same_bytes-≡ q r)

pub Run-to : (s e e' : ℕ) (q : List DataChunk) → e ≡ e' → Run s q e → Run s q e'
Run-to s e e' [] k h = omega arith
Run-to s e e' (c ∷ q) k (l, h) = (l, Run-to (s + 1) e e' q k h)

pub Run-append : (s m e : ℕ) (a b : List DataChunk) → Run s a m → Run m b e → Run s (a ++ b) e
Run-append s m e [] b h k = rw h k
Run-append s m e (c ∷ a) b (l, h) k = (l, Run-append (s + 1) m e a b h k)

pub Run-last : (s e : ℕ) (q : List DataChunk) → Run s q e → e ≡ s + length q
Run-last s e [] h = omega arith
Run-last s e (c ∷ q) (k, h) = omega (arith, Run-last (s + 1) e q h)

-- What is among chunks of consecutive numbers has one of the numbers.
pub among-bound :
    (s e : ℕ) (q : List DataChunk) (c : DataChunk)
    → Run s q e
    → among q c ≡ true
    → (s < c.seq_num) × (c.seq_num ≤ e)
among-bound s e [] c h k = cc
among-bound s e (d ∷ q) c (l, h) k =
    ground (arith, among-bound (s + 1) e q c h, Run-last (s + 1) e q h)

-- A test that holds of all the numbers of the chunks holds of each number in between.
pub Run-covers :
    (s e : ℕ) (q : List DataChunk) (test : ℕ → Bool) (p : ℕ)
    → Run s q e
    → All (λ c. test c.seq_num ≡ true) q
    → s < p
    → p ≤ e
    → test p ≡ true
Run-covers s e [] test p h a l k = absurd (omega arith)
Run-covers s e (c ∷ q) test p (n, h) (a, as_all) l k = elim (dec_lt (s + 1) p) [
  | yes more ↦ Run-covers (s + 1) e q test p h as_all more k
  | no same ↦ let i : p ≡ c.seq_num = omega arith in rw i a
]

-- Chunks of the same number, fragment control and bytes, one by one.
abbrev pub Alike : List DataChunk → List DataChunk → Type 0
Alike [] [] = Unit {0}
Alike [] (d ∷ q) = ⊥
Alike (c ∷ r) [] = ⊥
Alike (c ∷ r) (d ∷ q) =
    (c.seq_num ≡ d.seq_num) × (c.frag_ctrl ≡ d.frag_ctrl) × (c.payload ≡ d.payload) × Alike r q

-- The head matches only a chunk of its own number, and no later chunk matches the head.
among-tail :
    (m e : ℕ) (d : DataChunk) (r q : List DataChunk)
    → d.seq_num ≤ m
    → Run m r e
    → All (λ c. among (d ∷ q) c ≡ true) r
    → All (λ c. among q c ≡ true) r
among-tail m e d [] q h k a = tt
among-tail m e d (c ∷ r) q h (l, k) (a, as_all) =
    (ground arith, among-tail (m + 1) e d r q (omega arith) k as_all)

among-head :
    (s e : ℕ) (c d : DataChunk) (q : List DataChunk)
    → c.seq_num ≤ s
    → Run s q e
    → among (d ∷ q) c ≡ true
    → same_chunk d c ≡ true
among-head s e c d q h k a = ground (arith, among-bound s e q c k)

-- Two runs of the same numbers, where each chunk of the first is among the second.
pub Alike-events :
    (s e : ℕ) (r q : List DataChunk)
    → Run s r e
    → Run s q e
    → All (λ c. among q c ≡ true) r
    → Alike r q
Alike-events s e [] [] h k a = tt
Alike-events s e [] (d ∷ q) h (l, k) a = absurd (omega (arith, Run-last (s + 1) e q k))
Alike-events s e (c ∷ r) [] (l, h) k a = absurd (omega (arith, Run-last (s + 1) e r h))
Alike-events s e (c ∷ r) (d ∷ q) (l, h) (m, k) (a, as_all) =
    let same = among-head (s + 1) e c d q (omega arith) k a in
    (
      omega arith,
      ground arith,
      sym (same_bytes-≡ d.payload c.payload (ground arith)),
      Alike-events (s + 1) e r q h k (among-tail (s + 1) e d r q (omega arith) h as_all),
    )

Alike-IsRest : (s : ℕ) (r q : List DataChunk) → Alike r q → IsRest s q → IsRest s r
Alike-IsRest s r [] a h = absurd h
Alike-IsRest s [] (d ∷ q) a h = absurd a
Alike-IsRest s (c ∷ []) (d ∷ []) (k, l, m, a) h = (k ∙ h.0, l ∙ h.1)
Alike-IsRest s (c ∷ b ∷ r) (d ∷ []) (k, l, m, a) h = absurd a
Alike-IsRest s (c ∷ []) (d ∷ x ∷ q) (k, l, m, a) h = absurd a
Alike-IsRest s (c ∷ b ∷ r) (d ∷ x ∷ q) (k, l, m, a) (h, i, j) =
    (k ∙ h, l ∙ i, Alike-IsRest (s + 1) (b ∷ r) (x ∷ q) a j)

pub Alike-IsMessage : (s : ℕ) (r q : List DataChunk) → Alike r q → IsMessage s q → IsMessage s r
Alike-IsMessage s r [] a h = absurd h
Alike-IsMessage s [] (d ∷ q) a h = absurd a
Alike-IsMessage s (c ∷ []) (d ∷ []) (k, l, m, a) h = (k ∙ h.0, l ∙ h.1)
Alike-IsMessage s (c ∷ b ∷ r) (d ∷ []) (k, l, m, a) h = absurd a
Alike-IsMessage s (c ∷ []) (d ∷ x ∷ q) (k, l, m, a) h = absurd a
Alike-IsMessage s (c ∷ b ∷ r) (d ∷ x ∷ q) (k, l, m, a) (h, i, j) =
    (k ∙ h, l ∙ i, Alike-IsRest (s + 1) (b ∷ r) (x ∷ q) a j)

pub Alike-joined : (r q : List DataChunk) → Alike r q → joined r ≡ joined q
Alike-joined [] [] a = refl
Alike-joined [] (d ∷ q) a = absurd a
Alike-joined (c ∷ r) [] a = absurd a
Alike-joined (c ∷ r) (d ∷ q) (k, l, m, a) = rw (m, Alike-joined r q a) refl

rest-Run : (s : ℕ) (q : List DataChunk) → IsRest (s + 1) q → Run s q (s + length q)
rest-Run s [] h = absurd h
rest-Run s (c ∷ []) (k, h) = (k, omega arith)
rest-Run s (c ∷ d ∷ q) (k, h, i) =
    (k, Run-to (s + 1) _ _ (d ∷ q) (omega arith) (rest-Run (s + 1) (d ∷ q) i))

pub message-Run : (s : ℕ) (q : List DataChunk) → IsMessage (s + 1) q → Run s q (s + length q)
message-Run s [] h = absurd h
message-Run s (c ∷ []) (k, h) = (k, omega arith)
message-Run s (c ∷ d ∷ q) (k, h, i) =
    (k, Run-to (s + 1) _ _ (d ∷ q) (omega arith) (rest-Run (s + 1) (d ∷ q) i))
