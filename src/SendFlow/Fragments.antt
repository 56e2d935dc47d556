-- ===== src/SendFlow/Fragments.antt =====
-- How `send` of src/rtmfp/flow.go splits a message.
use go_rtmfp.Prelude.{
  ℕ, zero, suc, ◌+◌, ◌-◌, ◌^◌, ◌≤◌, ◌<◌, ◌≡◌, refl, sym, ap, ◌∙◌, List, [], ◌∷◌, ◌++◌, arith,
  length, take, drop, All, add64, add64_fits, sub64_fits, append_assoc, append-nil, ◌==◌,
  if◌then◌else◌, length-drop, length-take, length-append, take-append-drop, take_all, dec_le,
}
use native.Mathlib.Nat.{zero-add}
use mathlib.Core.Path.{subst}
use go_rtmfp.DataChunk.{DataChunk, new_chunk, smss, fc_whole, fc_begin, fc_middle, fc_end}
use go_rtmfp.Message.{IsRest, IsMessage, joined}
use go_rtmfp.SendFlow.State.{SendFlow}
use go_rtmfp.SendFlow.Transmit.{chunk_length, fragment_ctrl, push_fragment, fragment_loop, enqueue}
use go_rtmfp.SendFlow.Budget.{IsSegment}

-- The flow `f'` is `f` with the chunks `q` behind its queue, numbered up to the last.
pub record Queues (f f' : SendFlow) (q : List DataChunk) : Type 0 where
  pub queue : f'.send_queue ≡ f.send_queue ++ q
  pub last : f'.last_seqnum ≡ f.last_seqnum + length q

-- What the loop adds behind position `i`, which is not the first.
abbrev RestFrom : ℕ → List ℕ → SendFlow → SendFlow → Type 0
RestFrom i buf f f' =
    (q : List DataChunk) × Queues f f' q
    × IsRest (f.last_seqnum + 1) q
    × (joined q ≡ drop i buf)
    × All IsSegment q

-- The part of one round.
abbrev part : ℕ → List ℕ → List ℕ
part i buf = take (chunk_length i buf) (drop i buf)

suc-add : (m n : ℕ) → suc m + n ≡ suc (m + n)
suc-add m n = omega arith

take-nil : (n : ℕ) → take {A = ℕ} n [] ≡ []
take-nil zero = refl
take-nil (suc n) = refl

drop-nil : (n : ℕ) → drop {A = ℕ} n [] ≡ []
drop-nil zero = refl
drop-nil (suc n) = refl

drop-split : (n m : ℕ) (l : List ℕ) → take n (drop m l) ++ drop (m + n) l ≡ drop m l
drop-split n zero l = ap (λ (k : ℕ). take n l ++ drop k l) (zero-add n) ∙ take-append-drop n l
drop-split n (suc m) [] =
    ap (λ (k : List ℕ). take n [] ++ k) (drop-nil (suc m + n)) ∙ append-nil (take n []) ∙ take-nil n
drop-split n (suc m) (x ∷ l) =
    ap (λ (k : ℕ). take n (drop m l) ++ drop k (x ∷ l)) (suc-add m n) ∙ drop-split n m l

-- The fragment that a round puts in the queue.
abbrev fragment : SendFlow → ℕ → List ℕ → DataChunk
fragment f i buf = new_chunk (fragment_ctrl i buf) (f.last_seqnum + 1) (part i buf)

push_fragment-Queues :
    (f : SendFlow) (i : ℕ) (buf : List ℕ)
    → f.last_seqnum < 2 ^ 63
    → (fragment f i buf).seq_num ≡ f.last_seqnum + 1
    → Queues f (push_fragment f i buf) (fragment f i buf ∷ [])
unfolding push_fragment
push_fragment-Queues f i buf h e = record {
  queue = rw (add64_fits f.last_seqnum 1 (omega arith));
  last = ground (arith, add64_fits f.last_seqnum 1);
}

Queues-trans :
    (f f' f'' : SendFlow) (q q' : List DataChunk)
    → Queues f f' q
    → Queues f' f'' q'
    → Queues f f'' (q ++ q')
Queues-trans f f' f'' q q' h k = record {
  queue = k.queue ∙ ap (λ (l : List DataChunk). l ++ q') h.queue ∙ append_assoc f.send_queue q q';
  last = omega (arith, h.last, k.last, length-append q q');
}

fragment_loop_end :
    (fuel i : ℕ) (buf : List ℕ) (f : SendFlow) → length buf ≤ i → fragment_loop fuel i buf f ≡ f
unfolding fragment_loop
fragment_loop_end zero i buf f h = refl
fragment_loop_end (suc fuel) i buf f h = ground arith

fragment_loop_round :
    (fuel i : ℕ) (buf : List ℕ) (f : SendFlow)
    → i < length buf
    → fragment_loop (suc fuel) i buf f
      ≡ fragment_loop fuel (add64 i (chunk_length i buf)) buf (push_fragment f i buf)
unfolding fragment_loop
fragment_loop_round fuel i buf f h = ground arith

-- In the last round the part is all that is left; in any other it is a segment.
last_length :
    (i : ℕ) (buf : List ℕ)
    → length buf < 2 ^ 62
    → i ≤ length buf
    → length buf ≤ i + smss
    → chunk_length i buf ≡ length buf - i
unfolding chunk_length
last_length i buf s h k = ground (arith, add64_fits i smss, sub64_fits (length buf) i)

full_length :
    (i : ℕ) (buf : List ℕ) → length buf < 2 ^ 62 → i + smss < length buf → chunk_length i buf ≡ smss
unfolding chunk_length
full_length i buf s h = ground (arith, add64_fits i smss)

last_ctrl :
    (i : ℕ) (buf : List ℕ)
    → length buf < 2 ^ 62
    → i ≤ length buf
    → length buf ≤ i + smss
    → fragment_ctrl i buf ≡ fc_end
unfolding fragment_ctrl
last_ctrl i buf s h k = ground (arith, add64_fits i smss)

full_ctrl :
    (i : ℕ) (buf : List ℕ)
    → length buf < 2 ^ 62
    → i + smss < length buf
    → fragment_ctrl i buf ≡ (if i == 0 then fc_begin else fc_middle)
unfolding fragment_ctrl
full_ctrl i buf s h = ground (arith, add64_fits i smss)

-- A chunk in front of a rest.
IsRest-cons :
    (s : ℕ) (c : DataChunk) (q : List DataChunk)
    → c.seq_num ≡ s
    → c.frag_ctrl ≡ fc_middle
    → IsRest (s + 1) q
    → IsRest s (c ∷ q)
IsRest-cons s c [] e k h = absurd h
IsRest-cons s c (d ∷ q) e k h = (e, k, h)

IsMessage-cons :
    (s : ℕ) (c : DataChunk) (q : List DataChunk)
    → c.seq_num ≡ s
    → c.frag_ctrl ≡ fc_begin
    → IsRest (s + 1) q
    → IsMessage s (c ∷ q)
IsMessage-cons s c [] e k h = absurd h
IsMessage-cons s c (d ∷ q) e k h = (e, k, h)

part-IsSegment :
    (f : SendFlow) (i : ℕ) (buf : List ℕ) → chunk_length i buf ≤ smss → IsSegment (fragment f i buf)
part-IsSegment f i buf h = omega (arith, length-take (chunk_length i buf) (drop i buf))

part_last :
    (i : ℕ) (buf : List ℕ) → chunk_length i buf ≡ length buf - i → part i buf ++ [] ≡ drop i buf
part_last i buf e =
    append-nil (part i buf)
    ∙ take_all (chunk_length i buf) (drop i buf) (omega (arith, length-drop i buf))

part_full :
    (i : ℕ) (buf l : List ℕ)
    → chunk_length i buf ≡ smss
    → l ≡ drop (i + smss) buf
    → part i buf ++ l ≡ drop i buf
part_full i buf l e h =
    ap (◌++◌ (part i buf)) (h ∙ ap (λ (n : ℕ). drop (i + n) buf) (sym e))
    ∙ drop-split (chunk_length i buf) i buf

fragment_loop-RestFrom :
    (fuel i : ℕ) (buf : List ℕ) (f : SendFlow)
    → length buf < 2 ^ 62
    → 0 < i
    → i < length buf
    → length buf ≤ i + fuel
    → f.last_seqnum + fuel < 2 ^ 63
    → RestFrom i buf f (fragment_loop fuel i buf f)
fragment_loop-RestFrom zero i buf f s p h k l = absurd (omega arith)
fragment_loop-RestFrom (suc fuel) i buf f s p h k l =
    let c = fragment f i buf in
    let g = push_fragment f i buf in
    let first = push_fragment-Queues f i buf (omega arith) refl in
    rw (fragment_loop_round fuel i buf f h) (elim (dec_le (length buf) (i + smss)) [
      | yes end ↦
          let len = last_length i buf s (omega arith) end in
          let stop : length buf ≤ add64 i (chunk_length i buf) =
            rw len (omega (arith, add64_fits i (length buf - i))) in
          rw (fragment_loop_end fuel (add64 i (chunk_length i buf)) buf g stop) (
            c ∷ [],
            first,
            (refl, last_ctrl i buf s (omega arith) end),
            part_last i buf len,
            (part-IsSegment f i buf (omega arith), tt),
          )
      | no more ↦
          let len = full_length i buf s (omega arith) in
          let next : add64 i (chunk_length i buf) ≡ i + smss =
            rw len (add64_fits i smss (omega arith)) in
          let middle : fragment_ctrl i buf ≡ fc_middle =
            ground (arith, full_ctrl i buf s (omega arith)) in
          let num : g.last_seqnum + 1 ≡ f.last_seqnum + 1 + 1 = omega (arith, first.last) in
          let (q, rest, shape, bytes, segs) =
            fragment_loop-RestFrom fuel (i + smss) buf g s (omega arith) (omega arith) (omega arith)
              (omega (arith, first.last)) in
          rw next (
            c ∷ q,
            Queues-trans f g _ (c ∷ []) q first rest,
            IsRest-cons (f.last_seqnum + 1) c q refl middle (subst (λ n. IsRest n q) num shape),
            part_full i buf (joined q) len bytes,
            (part-IsSegment f i buf (omega arith), segs),
          )
    ])

enqueue_whole :
    (f : SendFlow) (buf : List ℕ)
    → length buf ≤ smss
    → f.last_seqnum < 2 ^ 63
    → enqueue f buf ≡ record f {
      last_seqnum = f.last_seqnum + 1;
      send_queue = f.send_queue ++ new_chunk fc_whole (f.last_seqnum + 1) buf ∷ [];
    }
unfolding enqueue
enqueue_whole f buf h k = ground (arith, add64_fits f.last_seqnum 1)

enqueue_loops :
    (f : SendFlow) (buf : List ℕ)
    → smss < length buf
    → enqueue f buf ≡ fragment_loop (length buf) 0 buf f
unfolding enqueue
enqueue_loops f buf h = ground arith

enqueue_first :
    (f : SendFlow) (buf : List ℕ) (fuel : ℕ)
    → length buf ≡ suc fuel
    → smss < length buf
    → length buf < 2 ^ 62
    → enqueue f buf ≡ fragment_loop fuel smss buf (push_fragment f 0 buf)
enqueue_first f buf fuel e h k =
    let len = full_length 0 buf k (omega arith) in
    let next : add64 0 (chunk_length 0 buf) ≡ smss =
      omega (arith, add64_fits 0 (chunk_length 0 buf), len) in
    enqueue_loops f buf h
    ∙ ap (λ (n : ℕ). fragment_loop n 0 buf f) e
    ∙ fragment_loop_round fuel 0 buf f (omega arith)
    ∙ ap (λ (n : ℕ). fragment_loop fuel n buf (push_fragment f 0 buf)) next

-- While the numbers stay below 2 ^ 62, `send` queues a message as chunks of at most a segment: one whole chunk, or a begin, middles and
-- an end, numbered in order after the last number given out, and their bytes joined are the message.
pub enqueue_splits :
    (f : SendFlow) (buf : List ℕ)
    → f.last_seqnum + length buf < 2 ^ 62
    → (q : List DataChunk) × Queues f (enqueue f buf) q
      × IsMessage (f.last_seqnum + 1) q
      × (joined q ≡ buf)
      × All IsSegment q
enqueue_splits f buf s = elim (dec_le (length buf) smss) [
  | yes small ↦ rw (enqueue_whole f buf small (omega arith)) (
    new_chunk fc_whole (f.last_seqnum + 1) buf ∷ [],
    record { queue = refl; last = omega arith },
    (refl, refl),
    append-nil buf,
    (small, tt),
  )
  | no large ↦
      let c = fragment f 0 buf in
      let g = push_fragment f 0 buf in
      let first = push_fragment-Queues f 0 buf (omega arith) refl in
      let len = full_length 0 buf (omega arith) (omega arith) in
      let begin : fragment_ctrl 0 buf ≡ fc_begin =
        ground (arith, full_ctrl 0 buf (omega arith) (omega arith)) in
      let num : g.last_seqnum + 1 ≡ f.last_seqnum + 1 + 1 = omega (arith, first.last) in
      let (q, rest, shape, bytes, segs) =
        fragment_loop-RestFrom (length buf - 1) smss buf g (omega arith) (omega arith) (omega arith)
          (omega arith) (omega (arith, first.last)) in
      rw (enqueue_first f buf (length buf - 1) (omega arith) (omega arith) (omega arith)) (
        c ∷ q,
        Queues-trans f g _ (c ∷ []) q first rest,
        IsMessage-cons (f.last_seqnum + 1) c q refl begin (subst (λ n. IsRest n q) num shape),
        part_full 0 buf (joined q) len bytes,
        (part-IsSegment f 0 buf (omega arith), segs),
      )
]
