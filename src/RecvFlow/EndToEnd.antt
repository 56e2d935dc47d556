-- ===== src/RecvFlow/EndToEnd.antt =====
-- From `send_flow.send` to `recv_flow.read_message` of src/rtmfp/flow.go: a message arrives whole.
use go_rtmfp.Prelude.{
  ℕ, zero, suc, ◌+◌, ◌^◌, ◌<◌, ◌≤◌, ◌≡◌, refl, sym, ap, ◌∙◌, Bool, true, false, ◌||◌, some, List,
  [], ◌∷◌, if◌then◌else◌, All, arith, length, length-append, add64, append-nil, dec_lt,
}
use go_rtmfp.DataChunk.{DataChunk, new_chunk, fc_whole, Globals}
use go_rtmfp.Message.{IsMessage, joined}
use go_rtmfp.ChunkHeap.{ChunkHeap, total}
use go_rtmfp.RangeQueue.{contain}
use go_rtmfp.SendFlow.State.{SendFlow, next_seqnumber}
use go_rtmfp.SendFlow.Transmit.{push_back, chunk_length, push_fragment, fragment_loop, enqueue}
use go_rtmfp.SendFlow.Fragments.{enqueue_splits}
use go_rtmfp.RecvFlow.State.{RecvFlow, open_flow, send_ack, on_buffer_probe, read_message}
use go_rtmfp.RecvFlow.Order.{Run}
use go_rtmfp.RecvFlow.Delivery.{send_ack_total}
use go_rtmfp.RecvFlow.Userdata.{IsSettled, on_userdata_total, Same-IsSettled}
use go_rtmfp.RecvFlow.Alike.{
  Alike, Run-to, among, Run-append, among-bound, Run-covers, Alike-events, Alike-IsMessage,
  Alike-joined, message-Run,
}
use go_rtmfp.RecvFlow.Message.{read_message_whole}
use go_rtmfp.RecvFlow.Events.{
  RecvEvent, userdata, buffer_probe, delack, read, brings, received, fire, handle, run, new_flow,
}
use go_rtmfp.RecvFlow.Runs.{new_flow-IsSettled, new_flow-empty}
use go_rtmfp.RecvFlow.Contents.{held, on_userdata-held}

-- An event at the receiver while only the chunks of `q` travel, as often and in whatever order.
abbrev pub IsFrom : List DataChunk → RecvEvent → Type 0
IsFrom q (userdata ctrl seq buf) = among q (new_chunk ctrl seq buf) ≡ true
IsFrom q buffer_probe = Unit {0}
IsFrom q delack = Unit {0}
IsFrom q read = ⊥

foreign : List DataChunk → DataChunk → ℕ
foreign q c = if among q c then 0 else 1

foreign-none : (q r : List DataChunk) → total (foreign q) r ≡ 0 → All (λ c. among q c ≡ true) r
unfolding foreign
foreign-none q [] h = tt
foreign-none q (c ∷ r) h = (ground arith, foreign-none q r (ground arith))

-- While only chunks of `q` travel and nothing is read, the ordered buffer holds the numbers from 1 to the last
-- in order, and every chunk that is held is one of `q`.
module _ (H : ChunkHeap) (g : Globals) (q : List DataChunk) where
  record IsPure (f : RecvFlow H) : Type 0 where
    settled : IsSettled H f
    numbers : Run 0 f.ordered_recv_buf f.last_ordered_seqnum
    pure : held H (foreign q) f ≡ 0

  record Steps (e : RecvEvent) (f f' : RecvFlow H) : Type 0 where
    is_pure : IsPure f'
    ranges : (p : ℕ) → contain f'.recv_ranges p ≡ (brings p e || contain f.recv_ranges p)

  answer_pure :
      (e : RecvEvent) (f : RecvFlow H)
      → IsPure f
      → ((p : ℕ) → brings p e ≡ false)
      → (f' : RecvFlow H) × (send_ack H g f ≡ some f') × Steps e f f'
  answer_pure e f v none_new =
      let (f', a, k, l, r, s, d) = send_ack_total H g f v.settled.tracked in
      (
        f',
        k,
        record {
          is_pure = record {
            settled = Same-IsSettled H f f' s v.settled;
            numbers = rw (s.ordered, s.last) v.numbers;
            pure = rw (s.ordered, s.unordered) v.pure;
          };
          ranges = λ p. rw (s.ranges, none_new p) refl;
        },
      )

  fire_pure :
      (alarm : Bool) (f : RecvFlow H)
      → IsPure f
      → (f' : RecvFlow H) × (fire H g alarm f ≡ some f') × Steps delack f f'
  unfolding fire
  fire_pure true f v = answer_pure delack f v (λ p. refl)
  fire_pure false f v = (f, refl, record { is_pure = v; ranges = λ p. refl })

  handle_pure :
      (e : RecvEvent) (f : RecvFlow H)
      → IsFrom q e
      → Run 0 q (length q)
      → length q < 2 ^ 62
      → IsPure f
      → (f' : RecvFlow H) × (handle H g e f ≡ some f') × Steps e f f'
  unfolding handle on_buffer_probe
  handle_pure (userdata ctrl seq buf) f k n small v =
      let c = new_chunk ctrl seq buf in
      let (low, high) = among-bound 0 (length q) q c n k in
      let (f', e, b) = on_userdata_total H g f ctrl seq buf v.settled low (omega arith) in
      let (more, o, r) = b.moved in
      let known : foreign q c ≡ 0 = unfold foreign in rw k refl in
      let kept = on_userdata-held H (foreign q) g f f' ctrl seq buf e in
      (
        f',
        e,
        record {
          is_pure = record {
            settled = b.settled;
            numbers = rw o (
                Run-append 0 f.last_ordered_seqnum f'.last_ordered_seqnum f.ordered_recv_buf more
                  v.numbers r);
            pure = ground (arith, kept, known, v.pure);
          };
          ranges = b.received;
        },
      )
  handle_pure buffer_probe f k n small v = answer_pure buffer_probe f v (λ p. refl)
  handle_pure delack f k n small v = fire_pure f.delack_alarm f v
  handle_pure read f k n small v = absurd k

  run-IsPure :
      (es : List RecvEvent) (f : RecvFlow H)
      → All (IsFrom q) es
      → Run 0 q (length q)
      → length q < 2 ^ 62
      → IsPure f
      → (f' : RecvFlow H) × (run H g es f ≡ some f')
        × IsPure f'
        × ((p : ℕ) → contain f'.recv_ranges p ≡ (received p es || contain f.recv_ranges p))
  unfolding run
  run-IsPure [] f k n small v = (f, refl, v, λ p. refl)
  run-IsPure (e ∷ es) f (k, ks) n small v =
      let (f1, a, t) = handle_pure e f k n small v in
      let (f2, b, v', r) = run-IsPure es f1 ks n small t.is_pure in
      (f2, rw a b, v', λ p. ground (arith, r p, t.ranges p))

  new_flow-IsPure : (flowid : ℕ) → IsPure (new_flow H flowid)
  new_flow-IsPure flowid = record {
    settled = new_flow-IsSettled H g flowid;
    numbers = unfold new_flow open_flow in refl;
    pure = unfold new_flow open_flow in rw H.chunks-create refl;
  }

  -- A number that came is one of the chunks'.
  received-bound :
      (p : ℕ) (es : List RecvEvent)
      → All (IsFrom q) es
      → Run 0 q (length q)
      → received p es ≡ true
      → p ≤ length q
  received-bound p [] k n e = cc
  received-bound p (userdata ctrl seq buf ∷ es) (k, ks) n e =
      ground
        (arith, among-bound 0 (length q) q (new_chunk ctrl seq buf) n k, received-bound p es ks n)
  received-bound p (buffer_probe ∷ es) (k, ks) n e = received-bound p es ks n e
  received-bound p (delack ∷ es) (k, ks) n e = received-bound p es ks n e
  received-bound p (read ∷ es) (k, ks) n e = absurd k

  -- Once every chunk of a message has come, the ordered buffer is the message.
  All-in_order :
      (flowid : ℕ) (es : List RecvEvent)
      → IsMessage 1 q
      → length q < 2 ^ 62
      → All (IsFrom q) es
      → All (λ c. received c.seq_num es ≡ true) q
      → (f : RecvFlow H) × (run H g es (new_flow H flowid) ≡ some f)
        × IsSettled H f
        × Alike f.ordered_recv_buf q
  All-in_order flowid es m small k came =
      let n = Run-to 0 (0 + length q) (length q) q (omega arith) (message-Run 0 q m) in
      let (f, e, v, r) = run-IsPure es (new_flow H flowid) k n small (new_flow-IsPure flowid) in
      let last = f.last_ordered_seqnum in
      let holds : (p : ℕ) → contain f.recv_ranges p ≡ received p es =
        λ p. ground (arith, r p, new_flow-empty H g flowid p) in
      let low : last ≤ length q = elim (dec_lt 0 last) [
        | yes pos ↦
            received-bound last es k n (ground (arith, holds last, v.settled.tracked.tracked last))
        | no none_yet ↦ omega arith
      ] in
      let high : length q ≤ last = elim (dec_lt last (length q)) [
        | yes missing ↦
            let next : received (last + 1) es ≡ true =
              Run-covers 0 (length q) q (λ p. received p es) (last + 1) n came (omega arith)
                (omega arith) in
            ground
              (arith, next, holds (last + 1), v.settled.tracked.tracked (last + 1), v.settled.idle)
        | no there ↦ omega arith
      ] in
      let whole : last ≡ length q = omega arith in
      (
        f,
        e,
        v.settled,
        Alike-events 0 (length q) f.ordered_recv_buf q
            (Run-to 0 last (length q) f.ordered_recv_buf whole v.numbers) n
            (foreign-none q f.ordered_recv_buf (omega (arith, v.pure))),
      )

  -- Then `read_message` gives its bytes.
  read_whole :
      (flowid : ℕ) (es : List RecvEvent) (buf : List ℕ)
      → IsMessage 1 q
      → length q < 2 ^ 62
      → joined q ≡ buf
      → 0 < length buf
      → All (IsFrom q) es
      → All (λ c. received c.seq_num es ≡ true) q
      → (f : RecvFlow H) × (run H g es (new_flow H flowid) ≡ some f)
        × ((read_message H f).0 ≡ some buf)
        × ((read_message H f).1.ordered_recv_buf ≡ [])
  read_whole flowid es buf m small same_buf pos k came =
      let (f, e, v, alike) = All-in_order flowid es m small k came in
      let r = f.ordered_recv_buf in
      let same : joined r ≡ buf = Alike-joined r q alike ∙ same_buf in
      let (msg, left, count) =
        read_message_whole H f 1 r [] (sym (append-nil r)) (Alike-IsMessage 1 r q alike m)
          (omega (arith, ap length same)) v.tracked.buffered in
      (f, e, msg ∙ ap some same, left)

-- The loop queues at most one chunk in a round.
push_fragment-count :
    (f : SendFlow) (i : ℕ) (buf : List ℕ)
    → length (push_fragment f i buf).send_queue ≡ length f.send_queue + 1
unfolding push_fragment push_back next_seqnumber
push_fragment-count f i buf = rw (length-append) (omega arith)

loop_round :
    (fuel i : ℕ) (buf : List ℕ) (f : SendFlow)
    → length
        (fragment_loop fuel (add64 i (chunk_length i buf)) buf (push_fragment f i buf)).send_queue
      ≤ length f.send_queue + suc fuel
    → length (fragment_loop (suc fuel) i buf f).send_queue ≤ length f.send_queue + suc fuel
unfolding fragment_loop
loop_round fuel i buf f h = ground arith

fragment_loop-count :
    (fuel i : ℕ) (buf : List ℕ) (f : SendFlow)
    → length (fragment_loop fuel i buf f).send_queue ≤ length f.send_queue + fuel
fragment_loop-count zero i buf f = unfold fragment_loop in omega arith
fragment_loop-count (suc fuel) i buf f =
    let ih = fragment_loop-count fuel (add64 i (chunk_length i buf)) buf (push_fragment f i buf) in
    loop_round fuel i buf f (omega (arith, ih, push_fragment-count f i buf))

enqueue-count :
    (f : SendFlow) (buf : List ℕ)
    → 0 < length buf
    → length (enqueue f buf).send_queue ≤ length f.send_queue + length buf
unfolding enqueue push_back next_seqnumber
enqueue-count f buf h = ground (
  arith,
  fragment_loop-count (length buf) 0 buf f,
  length-append f.send_queue (new_chunk fc_whole (add64 f.last_seqnum 1) buf ∷ []),
)

module _ (H : ChunkHeap) (g : Globals) where
  -- A message arrives. A new sending flow queues the chunks of a message of at least one byte and fewer
  -- than 2 ^ 62. If only these chunks reach a new receiving flow, in any order, overtaken, repeated, with probes
  -- and acknowledgements in between, and each of them at least once, then the receiver does not panic
  -- and `read_message` returns the bytes of the message, and nothing of them is left.
  pub send-read_message :
      (f : SendFlow) (buf : List ℕ) (flowid : ℕ) (es : List RecvEvent)
      → f.send_queue ≡ []
      → f.last_seqnum ≡ 0
      → 0 < length buf
      → length buf < 2 ^ 62
      → All (IsFrom (enqueue f buf).send_queue) es
      → All (λ c. received c.seq_num es ≡ true) (enqueue f buf).send_queue
      → (r : RecvFlow H) × (run H g es (new_flow H flowid) ≡ some r)
        × ((read_message H r).0 ≡ some buf)
        × ((read_message H r).1.ordered_recv_buf ≡ [])
  send-read_message f buf flowid es no_queue fresh pos small k came =
      let (q, queues, m, bytes, segs) = enqueue_splits f buf (omega arith) in
      let same : (enqueue f buf).send_queue ≡ q = queues.queue ∙ rw no_queue refl in
      let few : length q < 2 ^ 62 =
        omega (arith, ap length (sym same), ap length no_queue, enqueue-count f buf pos) in
      read_whole H g q flowid es buf (rw fresh at m) few bytes pos (rw same at k) (rw same at came)
