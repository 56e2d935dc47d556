-- ===== src/Tests/Flows.antt =====
-- Runs of the flows of src/rtmfp/flow.go.
use go_rtmfp.Prelude.{
  ℕ, ◌+◌, ◌-◌, ◌*◌, ◌/◌, ◌≤◌, ◌<◌, ◌≡◌, refl, ◌⊎◌, Bool, true, false, none, some, [], ◌∷◌, arith,
  max, min, List, All,
}
use go_rtmfp.RangeQueue.{contain}
use go_rtmfp.RangeQueue.Valid.{IsValid}
use go_rtmfp.Message.{IsMessage, joined}
use go_rtmfp.SendFlow.Fragments.{Queues, enqueue_splits}
use go_rtmfp.DataChunk.{DataChunk, new_chunk, smss, Globals}
use go_rtmfp.SendFlow.State.{SendFlow}
use go_rtmfp.SendFlow.Congestion.{update_congestion_wnd}
use go_rtmfp.SendFlow.Transmit.{enqueue, try_send, send, on_rtx_alarm}
use go_rtmfp.SendFlow.Ack.{on_range_ack}
use go_rtmfp.SendFlow.Inflight.{IsCounted}
use go_rtmfp.SendFlow.Events.{
  SendEvent, message, acknowledgement, alarm, run_sender, run_sender-IsCounted,
}
use go_rtmfp.SendFlow.Acked.{acked_after, seqs, unacked, on_range_ack_total}
use go_rtmfp.SendFlow.Budget.{IsSegment, Exhausted, try_send_budget}
use go_rtmfp.SendFlow.Window.{BacksOff, Grows, update_congestion_wnd_total}

abbrev globals : Globals
globals = record { fastgrow_allowed = false; is_time_critical = false; max_recv_buf_size = 1048576 }

-- A flow with the chunk 1 in flight, the chunk 2 waiting, and nothing acknowledged.
abbrev pub flow : SendFlow
flow = record {
  flowid = 1;
  rel_flowid = 0;
  last_seqnum = 2;
  send_queue =
      record (new_chunk 0 1 (7 ∷ 8 ∷ [])) { send_count = 1; in_flight = true; tsn = 1 }
      ∷ new_chunk 0 2 (9 ∷ [])
      ∷ [];
  inflight_bytes = 2;
  acked_bytes_accumulator = 0;
  recv_wnd = 43800;
  cong_wnd = 4380;
  ssthresh = 5000;
  ack_ranges = [];
  data_packets_count = 1;
  bufprob_ticker = false;
  rtx_alarm = none;
  current_tsn = 1;
  signature = none;
  closed = false;
  c_loss = 0;
  erto = 3000000000;
  mrto = 250000;
  sent = [];
}

on_range_ack_total_example :
    (f' : SendFlow) × (on_range_ack globals flow 43800 1 [] ≡ some f')
    × IsCounted f'
    × IsValid f'.ack_ranges
    × ((p : ℕ) → contain f'.ack_ranges p ≡ acked_after flow 1 [] p)
    × (seqs f'.send_queue ≡ unacked f'.ack_ranges (seqs flow.send_queue))
on_range_ack_total_example = on_range_ack_total globals flow 43800 1 [] refl tt tt (omega arith)

try_send_budget_example :
    Exhausted (try_send flow) (try_send flow).send_queue
    × ((try_send flow).inflight_bytes ≤ max 2 (min 43800 4380 + smss - 1))
    × ((try_send flow).data_packets_count ≤ max 1 6)
try_send_budget_example = try_send_budget flow (omega arith) (omega arith) (omega arith)

-- A loss with 9000 bytes in flight.
update_congestion_wnd_total_example :
    let f' = update_congestion_wnd globals flow true true true 0 9000 in
    (◌≡◌ {A = Bool} true true) × BacksOff globals 9000 f'
    ⊎ (◌≡◌ {A = Bool} true false)
      × (◌≡◌ {A = Bool} true false)
      × (4380 ≤ 9000)
      × Grows globals 0 flow f'
    ⊎ (◌≡◌ {A = Bool} true false) × ((◌≡◌ {A = Bool} true true) ⊎ (9000 < 4380)) × (f' ≡ flow)
update_congestion_wnd_total_example =
    update_congestion_wnd_total globals flow true true 0 9000 (omega arith) (omega arith)
      (omega arith)

enqueue_splits_example :
    (q : List DataChunk) × Queues flow (enqueue flow (1 ∷ 2 ∷ 3 ∷ [])) q
    × IsMessage 3 q
    × (joined q ≡ 1 ∷ 2 ∷ 3 ∷ [])
    × All IsSegment q
enqueue_splits_example = enqueue_splits flow (1 ∷ 2 ∷ 3 ∷ []) (omega arith)

abbrev sender_events : List SendEvent
sender_events = message (1 ∷ 2 ∷ []) ∷ alarm ∷ acknowledgement 43800 1 [] ∷ []

sender_run :
    (f : SendFlow) × (run_sender globals (λ t. t * 14142 / 10000) sender_events flow ≡ some f)
unfolding run_sender on_range_ack go_rtmfp.RangeQueue.add_range go_rtmfp.Range.make_range
    go_rtmfp.Prelude.sub64 go_rtmfp.Prelude.add64 on_rtx_alarm send go_rtmfp.Prelude.min_uint
    go_rtmfp.SendFlow.Transmit.try_chunk go_rtmfp.RangeQueue.add_range_queue
sender_run = (_, refl)

run_sender-IsCounted_example : IsCounted sender_run.0
run_sender-IsCounted_example =
    run_sender-IsCounted globals (λ t. t * 14142 / 10000) sender_events flow sender_run.0
      sender_run.1 refl
