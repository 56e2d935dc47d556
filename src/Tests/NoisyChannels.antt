-- ===== src/Tests/NoisyChannels.antt =====
-- Runs of the two loops of src/rtmfp/noisy_chan.go.
use go_rtmfp.Prelude.{ℕ, ◌≡◌, refl, false, List, [], ◌∷◌}
use go_rtmfp.NoisyChan.{Item, NoisyChan, open_chan, new_item}
use go_rtmfp.NoisyChan.Sending.{parked, Event, arrives, sends, elapses, run_chan, start}
use go_rtmfp.NoisyChan.Ledger.{IsLedger, run_chan-IsLedger}
use go_rtmfp.NoisyChan.Fifo.{passed, admitted, run_chan-fifo}
use go_rtmfp.NoisyChan.Signals.{run_chan-lost_signal}

abbrev limited_chan : NoisyChan
limited_chan = record {
  lose_rate = 10;
  delay = 5000000;
  capacity = 2;
  disorder = false;
  max_packet_size = 1500;
  speed = 2000;
  packets = [];
  rx_count = 0;
  tx_count = 0;
  drop_count = 0;
  bucket = 0;
  bucket_inc_rate = 0;
  bucket_update_ts = 0;
  out = [];
}

abbrev item : ℕ → ℕ → ℕ → Item
item number size queued_time = record { number = number; size = size; queued_time = queued_time }

-- Three packets, of which the first is lost, and the loop until the second has gone out.
abbrev schedule : List Event
schedule =
    sends
    ∷ sends
    ∷ arrives 3 60 100
    ∷ arrives 40 60 1500
    ∷ sends
    ∷ sends
    ∷ arrives 99 20 1200
    ∷ sends
    ∷ elapses 5000000
    ∷ sends
    ∷ sends
    ∷ sends
    ∷ sends
    ∷ sends
    ∷ sends
    ∷ []

schedule_run : (run_chan schedule (start 0 limited_chan)).chan.out ≡ (item 1 1500 0, 5000000) ∷ []
unfolding run_chan go_rtmfp.NoisyChan.drops go_rtmfp.NoisyChan.recv_packet start open_chan
    go_rtmfp.NoisyChan.update_send_bucket
schedule_run = refl

run_chan-IsLedger_example : IsLedger (run_chan schedule (start 0 limited_chan))
run_chan-IsLedger_example = run_chan-IsLedger schedule 0 limited_chan refl refl refl

run_chan-fifo_example :
    passed (run_chan schedule (start 0 limited_chan)) ≡ admitted schedule (start 0 limited_chan)
run_chan-fifo_example = run_chan-fifo schedule 0 limited_chan refl

run_chan-lost_signal_example :
    ((run_chan
        (sends ∷ arrives 40 60 100 ∷ sends ∷ elapses 7 ∷ sends ∷ [])
        (start 0 limited_chan)).place
      ≡ parked)
    × ((run_chan
          (sends ∷ arrives 40 60 100 ∷ sends ∷ elapses 7 ∷ sends ∷ [])
          (start 0 limited_chan)).chan.packets
        ≡ new_item 0 100 (open_chan 0 limited_chan) ∷ [])
    × ((run_chan
          (sends ∷ arrives 40 60 100 ∷ sends ∷ elapses 7 ∷ sends ∷ [])
          (start 0 limited_chan)).chan.out
        ≡ [])
unfolding go_rtmfp.NoisyChan.drops go_rtmfp.NoisyChan.open_chan
run_chan-lost_signal_example =
    run_chan-lost_signal 40 60 100 (elapses 7 ∷ sends ∷ []) 0 limited_chan refl (tt, (tt, tt))
