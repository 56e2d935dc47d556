-- ===== src/SendFlow/Events.antt =====
-- Sequences of events at a `send_flow` of src/rtmfp/flow.go: messages, acknowledgements and the alarm, in any order.
use go_rtmfp.Prelude.{ℕ, ◌≡◌, Option, some, List, [], ◌∷◌, ◌>>=◌, some_inj, bind_some, add64}
use mathlib.Core.Path.{subst}
use go_rtmfp.DataChunk.{Globals}
use go_rtmfp.Range.{Range, make_range}
use go_rtmfp.RangeQueue.{add_range, add_range_queue, range_queue_from_array}
use go_rtmfp.SendFlow.State.{SendFlow}
use go_rtmfp.SendFlow.Transmit.{send, on_rtx_alarm}
use go_rtmfp.SendFlow.Ack.{on_range_ack, apply_ack}
use go_rtmfp.SendFlow.Inflight.{
  IsCounted, send-IsCounted, on_rtx_alarm-IsCounted, apply_ack-IsCounted,
}

pub data SendEvent : Type 0 where
  message : (buf : List ℕ) → SendEvent
  acknowledgement : (buf_avail cum_ack : ℕ) (recv_ranges : List Range) → SendEvent
  alarm : SendEvent

-- `backoff` is the product with 1.4142 that lengthens the timeout.
unfoldable pub on_event : Globals → (ℕ → ℕ) → SendEvent → SendFlow → Option SendFlow
on_event g backoff (message buf) f = some (send f buf).0
on_event g backoff (acknowledgement buf_avail cum_ack ranges) f =
    on_range_ack g f buf_avail cum_ack ranges
on_event g backoff alarm f = some (on_rtx_alarm backoff f)

unfoldable pub run_sender : Globals → (ℕ → ℕ) → List SendEvent → SendFlow → Option SendFlow
unfolding on_event
run_sender g backoff [] f = some f
run_sender g backoff (e ∷ es) f = on_event g backoff e f >>= run_sender g backoff es

on_range_ack-IsCounted :
    (g : Globals) (f f' : SendFlow) (buf_avail cum_ack : ℕ) (ranges : List Range)
    → on_range_ack g f buf_avail cum_ack ranges ≡ some f'
    → IsCounted f
    → IsCounted f'
unfolding on_range_ack
on_range_ack-IsCounted g f f' buf_avail cum_ack ranges e h =
    let (r, p, k) =
      bind_some (add_range f.ack_ranges (make_range 0 (add64 cum_ack 1)))
        (λ r. add_range_queue r (range_queue_from_array ranges) >>= λ r'.
          some (apply_ack g f buf_avail r'))
        e in
    let (r', p', k') =
      bind_some (add_range_queue r (range_queue_from_array ranges))
        (λ r'. some (apply_ack g f buf_avail r')) k in
    subst IsCounted (some_inj k') (apply_ack-IsCounted g f buf_avail r' h)

on_event-IsCounted :
    (g : Globals) (backoff : ℕ → ℕ) (e : SendEvent) (f f' : SendFlow)
    → on_event g backoff e f ≡ some f'
    → IsCounted f
    → IsCounted f'
unfolding on_event
on_event-IsCounted g backoff (message buf) f f' e h =
    subst IsCounted (some_inj e) (send-IsCounted f buf h)
on_event-IsCounted g backoff (acknowledgement buf_avail cum_ack ranges) f f' e h =
    on_range_ack-IsCounted g f f' buf_avail cum_ack ranges e h
on_event-IsCounted g backoff alarm f f' e h =
    subst IsCounted (some_inj e) (on_rtx_alarm-IsCounted backoff f h)

-- Whatever messages, acknowledgements, wrong ones too, and alarms come, in any order: if the count of bytes in flight is
-- right before them, modulo 2 ^ 64, it is right after them, for any way to lengthen the timeout.
pub run_sender-IsCounted :
    (g : Globals) (backoff : ℕ → ℕ) (es : List SendEvent) (f f' : SendFlow)
    → run_sender g backoff es f ≡ some f'
    → IsCounted f
    → IsCounted f'
unfolding run_sender
run_sender-IsCounted g backoff [] f f' e h = subst IsCounted (some_inj e) h
run_sender-IsCounted g backoff (e ∷ es) f f' r h =
    let (f1, p, k) = bind_some (on_event g backoff e f) (run_sender g backoff es) r in
    run_sender-IsCounted g backoff es f1 f' k (on_event-IsCounted g backoff e f f1 p h)
