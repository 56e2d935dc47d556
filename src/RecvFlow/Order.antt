-- ===== src/RecvFlow/Order.antt =====
-- The loop of `on_userdata` (src/rtmfp/flow.go) that orders chunks.
use go_rtmfp.Prelude.{
  ℕ, zero, suc, ◌+◌, ◌%◌, ◌^◌, ◌≤◌, ◌<◌, ◌≡◌, refl, sym, ap, ◌∙◌, true, false, ◌&&◌, none, some,
  List, [], ◌∷◌, ◌++◌, arith, All, leb, if◌then◌else◌, add64, sub64, add64_fits, length, append-nil,
  append_assoc, dec_lt, inl, inr, ◌≢◌, ℕ_discrete, Option-cases,
}
use go_rtmfp.DataChunk.{DataChunk, chunk_len}
use go_rtmfp.Range.{Range}
use go_rtmfp.Range.Bounds.{range_contain_iff}
use go_rtmfp.RangeQueue.{contain}
use go_rtmfp.RangeQueue.Valid.{IsValid, IsValidFrom}
use go_rtmfp.ChunkHeap.{ChunkHeap, total, has_seq}
use go_rtmfp.RecvFlow.State.{RecvFlow}
use go_rtmfp.RecvFlow.Receive.{move_chunk, order_loop, order_chunks}
use go_rtmfp.RecvFlow.Message.{IsBuffered}

-- Chunks numbered one after the other, from behind `s` to `e`.
abbrev pub Run : ℕ → List DataChunk → ℕ → Type 0
Run s [] e = s ≡ e
Run s (c ∷ q) e = (c.seq_num ≡ s + 1) × Run (s + 1) q e

-- 1 for a number from 1 up to `last`, and 0 for any other.
abbrev pub delivered : ℕ → ℕ → ℕ
delivered last p = if leb 1 p && leb p last then 1 else 0

-- What a valid queue holds lies below 2 ^ 63.
pub contain-bound :
    (lo : ℕ) (q : List Range) (p : ℕ) → IsValidFrom lo q → contain q p ≡ true → p + 1 < 2 ^ 63
unfolding contain
contain-bound lo [] p v e = cc
contain-bound lo (r ∷ q) p (k, hr, v) e =
    ground (arith, range_contain_iff r p hr, contain-bound (r.pos + r.len + 1) q p v)

-- If no chunk of the list is below `c`, none has a number below its number.
none_below :
    (p : ℕ) (c : DataChunk) (q : List DataChunk)
    → All (λ d. c.seq_num ≤ d.seq_num) q
    → p < c.seq_num
    → total (has_seq p) q ≡ 0
none_below p c [] h k = refl
none_below p c (d ∷ q) (l, h) k = ground (arith, none_below p c q h k)

has_seq-le : (p : ℕ) (q : List DataChunk) → total (has_seq p) q ≤ total (λ _. 1) q
has_seq-le p [] = omega arith
has_seq-le p (c ∷ q) = ground (arith, has_seq-le p q)

total-one : (q : List DataChunk) → total (λ _. 1) q ≡ length q
total-one [] = refl
total-one (c ∷ q) = omega (arith, total-one q)

shrink :
    (n m k : ℕ) (c : DataChunk)
    → n ≡ m % 2 ^ 64
    → m ≡ chunk_len c + k
    → sub64 n (chunk_len c) ≡ k % 2 ^ 64
unfolding sub64
shrink n m k c e e' = omega arith

pub total-append :
    (w : DataChunk → ℕ) (q q' : List DataChunk) → total w (q ++ q') ≡ total w q + total w q'
total-append w [] q' = omega arith
total-append w (c ∷ q) q' = omega (arith, total-append w q q')

grow :
    (q : List DataChunk) (c : DataChunk) (n : ℕ)
    → n ≡ total chunk_len q % 2 ^ 64
    → add64 n (chunk_len c) ≡ total chunk_len (q ++ c ∷ []) % 2 ^ 64
unfolding add64
grow q c n e = omega (arith, total-append chunk_len q (c ∷ []))

module _ (H : ChunkHeap) where
  -- Every number that the flow has received is either delivered, or in the heap once, and no other
  -- number is; and the counts of bytes are right, modulo 2 ^ 64.
  pub record IsTracked (f : RecvFlow H) : Type 0 where
    pub tracked :
        (p : ℕ)
        → delivered f.last_ordered_seqnum p + total (has_seq p) (H.chunks f.unordered_recv_buf)
          ≡ (if contain f.recv_ranges p then 1 else 0)
    pub valid : IsValid f.recv_ranges
    pub waiting :
        f.unordered_recv_buf_bytes ≡ total chunk_len (H.chunks f.unordered_recv_buf) % 2 ^ 64
    pub buffered : IsBuffered H f

  module _ (f : RecvFlow H) (c : DataChunk) (h : H.Heap)
      (e : H.pop f.unordered_recv_buf ≡ some (c, h)) where
    popped-bound : IsTracked f → c.seq_num < 2 ^ 63
    popped-bound v =
        let received : contain f.recv_ranges c.seq_num ≡ true =
          ground (arith, v.tracked c.seq_num, H.total-pop (has_seq c.seq_num) _ h c e) in
        omega (arith, contain-bound 0 f.recv_ranges c.seq_num v.valid received)

    move_chunk-IsTracked :
        IsTracked f → c.seq_num ≡ f.last_ordered_seqnum + 1 → IsTracked (move_chunk H f c h)
    unfolding move_chunk
    move_chunk-IsTracked v k =
        let small = popped-bound v in
        let next : add64 f.last_ordered_seqnum 1 ≡ f.last_ordered_seqnum + 1 =
          add64_fits f.last_ordered_seqnum 1 (omega arith) in
        record {
          tracked = λ p. ground (arith, next, v.tracked p, H.total-pop (has_seq p) _ h c e);
          valid = v.valid;
          waiting = shrink _ _ _ c v.waiting (H.total-pop chunk_len _ h c e);
          buffered = grow f.ordered_recv_buf c _ v.buffered;
        }

  pub order-move :
      (fuel : ℕ) (f : RecvFlow H) (c : DataChunk) (h : H.Heap)
      → H.pop f.unordered_recv_buf ≡ some (c, h)
      → c.seq_num ≡ add64 f.last_ordered_seqnum 1
      → order_loop H (suc fuel) f ≡ order_loop H fuel (move_chunk H f c h)
  unfolding order_loop
  order-move fuel f c h e k = rw (e, order_loop) (ground arith)

  pub order-stop :
      (fuel : ℕ) (f : RecvFlow H) (c : DataChunk) (h : H.Heap)
      → H.pop f.unordered_recv_buf ≡ some (c, h)
      → c.seq_num ≢ add64 f.last_ordered_seqnum 1
      → order_loop H (suc fuel) f ≡ record f { unordered_recv_buf = H.push h c }
  unfolding order_loop
  order-stop fuel f c h e k = rw (e, order_loop) (ground arith)

  pub order-none :
      (fuel : ℕ) (f : RecvFlow H)
      → H.pop f.unordered_recv_buf ≡ none
      → order_loop H (suc fuel) f ≡ f
  unfolding order_loop
  order-none fuel f e = rw (e, order_loop)

  -- What the loop does: it moves chunks in order from the heap to the ordered buffer, and leaves none
  -- in the heap that could be moved.
  pub record Ordered (f f' : RecvFlow H) : Type 0 where
    pub tracked : IsTracked f'
    pub ranges : f'.recv_ranges ≡ f.recv_ranges
    pub moved :
        (q : List DataChunk) × (f'.ordered_recv_buf ≡ f.ordered_recv_buf ++ q)
        × Run f.last_ordered_seqnum q f'.last_ordered_seqnum
    pub idle : total (has_seq (f'.last_ordered_seqnum + 1)) (H.chunks f'.unordered_recv_buf) ≡ 0

  pub last-bound : (f : RecvFlow H) → IsTracked f → f.last_ordered_seqnum < 2 ^ 63
  last-bound f v = elim (dec_lt 0 f.last_ordered_seqnum) [
    | yes some_last ↦
        let received : contain f.recv_ranges f.last_ordered_seqnum ≡ true =
          ground (arith, v.tracked f.last_ordered_seqnum) in
        omega (arith, contain-bound 0 f.recv_ranges f.last_ordered_seqnum v.valid received)
    | no none_last ↦ omega arith
  ]

  -- An empty heap.
  stays-Ordered :
      (f : RecvFlow H)
      → IsTracked f
      → total (λ _. 1) (H.chunks f.unordered_recv_buf) ≡ 0
      → Ordered f f
  stays-Ordered f v e = record {
    tracked = v;
    ranges = refl;
    moved = ([], sym (append-nil f.ordered_recv_buf), refl);
    idle = omega (arith, has_seq-le (f.last_ordered_seqnum + 1) (H.chunks f.unordered_recv_buf));
  }

  -- The least chunk is put back.
  stop-Ordered :
      (f : RecvFlow H) (c : DataChunk) (h : H.Heap)
      → H.pop f.unordered_recv_buf ≡ some (c, h)
      → IsTracked f
      → contain f.recv_ranges 0 ≡ false
      → c.seq_num ≢ f.last_ordered_seqnum + 1
      → Ordered f (record f { unordered_recv_buf = H.push h c })
  stop-Ordered f c h e v z k = record {
    tracked = record {
      tracked = λ p.
          omega (arith, v.tracked p, H.total-pop (has_seq p) _ h c e, H.total-push (has_seq p) h c);
      valid = v.valid;
      waiting =
          v.waiting
          ∙ ap (λ (n : ℕ). n % 2 ^ 64)
              (H.total-pop chunk_len _ h c e ∙ sym (H.total-push chunk_len h c));
      buffered = v.buffered;
    };
    ranges = refl;
    moved = ([], sym (append-nil f.ordered_recv_buf), refl);
    idle = ground (
      arith,
      v.tracked c.seq_num,
      H.total-pop (has_seq c.seq_num) _ h c e,
      H.total-push (has_seq (f.last_ordered_seqnum + 1)) h c,
      none_below (f.last_ordered_seqnum + 1) c (H.chunks h) (H.pop-least _ h c e),
    );
  }

  -- One chunk is moved, and the loop goes on.
  move-Ordered :
      (f f' : RecvFlow H) (c : DataChunk) (h : H.Heap)
      → IsTracked f
      → c.seq_num ≡ f.last_ordered_seqnum + 1
      → Ordered (move_chunk H f c h) f'
      → Ordered f f'
  unfolding move_chunk
  move-Ordered f f' c h v k o =
      let (q, e, run) = o.moved in
      let last = add64_fits f.last_ordered_seqnum 1 (omega (arith, last-bound f v)) in
      record {
        tracked = o.tracked;
        ranges = o.ranges;
        moved = (c ∷ q, e ∙ append_assoc f.ordered_recv_buf (c ∷ []) q, (k, rw last at run));
        idle = o.idle;
      }

  moved-zero :
      (f : RecvFlow H) (c : DataChunk) (h : H.Heap)
      → contain f.recv_ranges 0 ≡ false
      → contain (move_chunk H f c h).recv_ranges 0 ≡ false
  unfolding move_chunk
  moved-zero f c h z = z

  moved-fewer :
      (f : RecvFlow H) (c : DataChunk) (h : H.Heap)
      → H.pop f.unordered_recv_buf ≡ some (c, h)
      → (fuel : ℕ) → total (λ _. 1) (H.chunks f.unordered_recv_buf) ≤ suc fuel
      → total (λ _. 1) (H.chunks (move_chunk H f c h).unordered_recv_buf) ≤ fuel
  unfolding move_chunk
  moved-fewer f c h e fuel l = omega (arith, H.total-pop (λ _. 1) f.unordered_recv_buf h c e)

  order_loop-Ordered :
      (fuel : ℕ) (f : RecvFlow H)
      → IsTracked f
      → contain f.recv_ranges 0 ≡ false
      → total (λ _. 1) (H.chunks f.unordered_recv_buf) ≤ fuel
      → Ordered f (order_loop H fuel f)
  order_loop-Ordered zero f v z l = unfold order_loop in stays-Ordered f v (omega arith)
  order_loop-Ordered (suc fuel) f v z l = elim (Option-cases (H.pop f.unordered_recv_buf)) [
    | inl e ↦
        rw (order-none fuel f e)
          (stays-Ordered f v (ap (total (λ _. 1)) (H.pop-none f.unordered_recv_buf e)))
    | inr ((c, h), e) ↦
        let next = add64_fits f.last_ordered_seqnum 1 (omega (arith, last-bound f v)) in
        elim (ℕ_discrete c.seq_num (f.last_ordered_seqnum + 1)) [
          | yes k ↦ rw (order-move fuel f c h e (k ∙ sym next)) (
              move-Ordered f _ c h v k (
                order_loop-Ordered fuel (move_chunk H f c h) (move_chunk-IsTracked f c h e v k)
                  (moved-zero f c h z) (moved-fewer f c h e fuel l)))
          | no k ↦ rw (order-stop fuel f c h e (λ p. k (p ∙ next))) (stop-Ordered f c h e v z k)
        ]
  ]

  -- The loop has rounds enough: no chunk that could be moved is left in the heap.
  pub order_chunks-Ordered :
      (f : RecvFlow H)
      → IsTracked f
      → contain f.recv_ranges 0 ≡ false
      → Ordered f (order_chunks H f)
  unfolding order_chunks
  order_chunks-Ordered f v z =
      order_loop-Ordered (length (H.chunks f.unordered_recv_buf)) f v z
        (omega (arith, total-one (H.chunks f.unordered_recv_buf)))
