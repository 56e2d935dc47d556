-- ===== src/RecvFlow/Runs.antt =====
-- What a `recv_flow` of src/rtmfp/flow.go has delivered after any sequence of events.
use go_rtmfp.Prelude.{
  ℕ, ◌+◌, ◌≤◌, ◌≡◌, refl, Bool, true, false, ◌||◌, some, List, [], ◌∷◌, if◌then◌else◌, All, arith,
  Bool-cases, inl, inr,
}
use go_rtmfp.DataChunk.{DataChunk, chunk_len, Globals}
use go_rtmfp.ChunkHeap.{ChunkHeap, total, has_seq}
use go_rtmfp.RangeQueue.{contain}
use go_rtmfp.RecvFlow.State.{RecvFlow, open_flow, send_ack, on_buffer_probe, read_message, has_end}
use go_rtmfp.RecvFlow.Message.{take_message-bytes}
use go_rtmfp.RecvFlow.Order.{delivered}
use go_rtmfp.RecvFlow.Delivery.{send_ack_total}
use go_rtmfp.RecvFlow.Userdata.{IsSettled, on_userdata_total, Same-IsSettled}
use go_rtmfp.RecvFlow.Events.{
  RecvEvent, userdata, buffer_probe, delack, read, IsSent, brings, received, fire, handle, run,
  new_flow,
}

module _ (H : ChunkHeap) (g : Globals) where
  -- An event leaves the flow settled, and it receives what the event brings.
  record Takes (e : RecvEvent) (f f' : RecvFlow H) : Type 0 where
    settled : IsSettled H f'
    ranges : (p : ℕ) → contain f'.recv_ranges p ≡ (brings p e || contain f.recv_ranges p)

  send_ack-Takes :
      (e : RecvEvent) (f : RecvFlow H)
      → IsSettled H f
      → ((p : ℕ) → brings p e ≡ false)
      → (f' : RecvFlow H) × (send_ack H g f ≡ some f') × Takes e f f'
  send_ack-Takes e f v none_new =
      let (f', a, q, k, r, s, d) = send_ack_total H g f v.tracked in
      (
        f',
        q,
        record {
          settled = Same-IsSettled H f f' s v;
          ranges = λ p. rw (s.ranges, none_new p) refl;
        },
      )

  read-IsSettled : (f : RecvFlow H) → IsSettled H f → IsSettled H (read_message H f).1
  unfolding read_message
  read-IsSettled f v = elim (Bool-cases (has_end f.ordered_recv_buf)) [
    | inr e ↦ rw e v
    | inl e ↦ rw e (record {
      tracked = record {
        tracked = v.tracked.tracked;
        valid = v.tracked.valid;
        waiting = v.tracked.waiting;
        buffered = omega (
          arith,
          take_message-bytes f.ordered_recved_bytes f.ordered_recv_buf 0
              (omega (arith, v.tracked.buffered)),
        );
      };
      no_zero = v.no_zero;
      idle = v.idle;
    })
  ]

  read-ranges :
      (f : RecvFlow H) (p : ℕ)
      → contain (read_message H f).1.recv_ranges p ≡ contain f.recv_ranges p
  unfolding read_message
  read-ranges f p = ground arith

  fire-Takes :
      (alarm : Bool) (f : RecvFlow H)
      → IsSettled H f
      → (f' : RecvFlow H) × (fire H g alarm f ≡ some f') × Takes delack f f'
  unfolding fire
  fire-Takes true f v = send_ack-Takes delack f v (λ p. refl)
  fire-Takes false f v = (f, refl, record { settled = v; ranges = λ p. refl })

  handle_total :
      (e : RecvEvent) (f : RecvFlow H)
      → IsSent e
      → IsSettled H f
      → (f' : RecvFlow H) × (handle H g e f ≡ some f') × Takes e f f'
  unfolding handle on_buffer_probe
  handle_total (userdata ctrl seq buf) f (pos, small) v =
      let (f', e, b) = on_userdata_total H g f ctrl seq buf v pos small in
      (f', e, record { settled = b.settled; ranges = b.received })
  handle_total buffer_probe f s v = send_ack-Takes buffer_probe f v (λ p. refl)
  handle_total delack f s v = fire-Takes f.delack_alarm f v
  handle_total read f s v = (
    (read_message H f).1,
    refl,
    record { settled = read-IsSettled f v; ranges = λ p. read-ranges f p },
  )

  -- A run from a settled flow.
  run-IsSettled :
      (es : List RecvEvent) (f : RecvFlow H)
      → All IsSent es
      → IsSettled H f
      → (f' : RecvFlow H) × (run H g es f ≡ some f')
        × IsSettled H f'
        × ((p : ℕ) → contain f'.recv_ranges p ≡ (received p es || contain f.recv_ranges p))
  unfolding run
  run-IsSettled [] f s v = (f, refl, v, λ p. refl)
  run-IsSettled (e ∷ es) f (s, ss) v =
      let (f1, q, t) = handle_total e f s v in
      let (f2, q', v', r) = run-IsSettled es f1 ss t.settled in
      (f2, rw q q', v', λ p. ground (arith, r p, t.ranges p))

  pub new_flow-IsSettled : (flowid : ℕ) → IsSettled H (new_flow H flowid)
  unfolding new_flow open_flow contain
  new_flow-IsSettled flowid =
      let empty : (w : DataChunk → ℕ) → total w (H.chunks H.create) ≡ 0 =
        λ w. rw H.chunks-create refl in
      record {
        tracked = record {
          tracked = λ p. ground (arith, empty (has_seq p));
          valid = tt;
          waiting = ground (arith, empty chunk_len);
          buffered = refl;
        };
        no_zero = refl;
        idle = empty (has_seq 1);
      }

  pub new_flow-empty : (flowid p : ℕ) → contain (new_flow H flowid).recv_ranges p ≡ false
  unfolding new_flow open_flow contain
  new_flow-empty flowid p = refl

  -- The receiver as a whole. Whatever chunks come, in whatever order, lost, repeated or overtaken, and whatever
  -- probes, alarms and reads fall between them, a new flow never panics; the numbers it has received are
  -- exactly those that came; and the last number in order is exactly the length of the unbroken run
  -- from 1: it was received with all below it, and the next one was not. The numbers of the chunks are
  -- from 1 on and below 2 ^ 63 - 1.
  pub run_in_order :
      (flowid : ℕ) (es : List RecvEvent)
      → All IsSent es
      → (f : RecvFlow H) × (run H g es (new_flow H flowid) ≡ some f)
        × IsSettled H f
        × ((p : ℕ) → contain f.recv_ranges p ≡ received p es)
        × ((p : ℕ) → delivered f.last_ordered_seqnum p ≤ (if received p es then 1 else 0))
        × (received (f.last_ordered_seqnum + 1) es ≡ false)
  run_in_order flowid es s =
      let (f, e, v, r) = run-IsSettled es (new_flow H flowid) s (new_flow-IsSettled flowid) in
      let holds : (p : ℕ) → contain f.recv_ranges p ≡ received p es =
        λ p. ground (arith, r p, new_flow-empty flowid p) in
      let next = f.last_ordered_seqnum + 1 in
      (
        f,
        e,
        v,
        holds,
        λ p. ground (arith, holds p, v.tracked.tracked p),
        ground (arith, holds next, v.tracked.tracked next, v.idle),
      )
