-- ===== src/Tests/Channels.antt =====
-- Runs of the times of src/rtmfp/session.go and of src/rtmfp/noisy_chan.go.
use go_rtmfp.Prelude.{◌≡◌, refl, true, none, ◌*◌, [], ◌∷◌, arith}
use go_rtmfp.Session.{Rtt, recv_packet_info, measure, note_stamp}
use go_rtmfp.Session.Stamps.{Sender, recv_packet_info-stamp_echo}
use go_rtmfp.Session.Timing.{IsTimed, recv_packet_info-IsTimed}
use go_rtmfp.NoisyChan.{NoisyChan}

-- The times of a new session.
abbrev times : Rtt
times = record {
  ts_rx = 0;
  ts_rx_time = 0;
  ts_echo_rx = 0;
  srtt = 0;
  rttvar = 0;
  mrto = 250000;
  erto = 3000000000;
}

times-IsTimed : IsTimed times
times-IsTimed = record {
  srtt = omega arith;
  rttvar = omega arith;
  ordered = omega arith;
  floor = omega arith;
  bounded = omega arith;
}

-- An echo of 25 ticks, 100 milliseconds.
first_measure : (recv_packet_info 125 9 0 100 times).erto ≡ 500000000
unfolding recv_packet_info
first_measure = refl

recv_packet_info-IsTimed_example : IsTimed (recv_packet_info 125 9 7 100 times)
recv_packet_info-IsTimed_example = recv_packet_info-IsTimed 125 9 7 100 times times-IsTimed

abbrev channel : NoisyChan
channel = record {
  lose_rate = 10;
  capacity = 2;
  disorder = true;
  max_packet_size = 1500;
  speed = 10000;
  delay = 50;
  packets = record { number = 3; size = 100; queued_time = 1 } ∷ [];
  out = [];
  rx_count = 4;
  tx_count = 1;
  drop_count = 2;
  bucket = 50;
  bucket_inc_rate = 10;
  bucket_update_ts = 1000000;
}

-- A session that got the stamp 64 at one second, which stands for the tick 65600 of the far end.
abbrev sender : Sender
sender = record {
  mode = 1;
  ekey = none;
  other_sessionid = 7;
  ts_tx = 5;
  ts_echo_tx = 3;
  rtt = record times { ts_rx = 64; ts_rx_time = 1000000000 };
}

-- It holds the stamp for 5 ticks, and the packet comes at the tick 65625: the trip took 20.
recv_packet_info-stamp_echo_example :
    recv_packet_info 89 9 6 69 times
    ≡ measure (20 * 4000000) (record (note_stamp 9 6 times) { ts_echo_rx = 69 })
unfolding go_rtmfp.Session.Stamps.stamp_now go_rtmfp.Session.Stamps.stamp_echo
recv_packet_info-stamp_echo_example =
    recv_packet_info-stamp_echo 6 1020000000 65600 65625 9 sender times refl (omega arith)
      (omega arith) (omega arith) (omega arith) (omega arith) (omega arith)
