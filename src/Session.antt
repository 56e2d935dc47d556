-- ===== src/Session.antt =====
-- The round-trip times of src/rtmfp/session.go, which `recv_packet_info` measures. Times are in
-- nanoseconds, time stamps in units of 4 milliseconds on 16 bits.
pub mod Timing
pub mod Keys
pub mod Opening
pub mod Carried
pub mod Trips
pub mod Agreement
pub mod Stamps
pub mod Flows
pub mod Routes
use go_rtmfp.Prelude.{ℕ, ◌+◌, ◌-◌, ◌*◌, ◌/◌, ◌%◌, Bool, not, ◌&&◌, ltb, leb, ◌==◌, if◌then◌else◌}

-- The fields that `recv_packet_info` reads or writes.
pub record Rtt : Type 0 where
  pub ts_rx : ℕ
  pub ts_rx_time : ℕ
  pub ts_echo_rx : ℕ
  pub srtt : ℕ
  pub rttvar : ℕ
  pub mrto : ℕ
  pub erto : ℕ

-- `max_duration` of src/rtmfp/base.go.
unfoldable pub max_duration : ℕ → ℕ → ℕ
max_duration a b = if ltb a b then b else a

-- A new time stamp of the far end is kept with the time it came.
unfoldable pub note_stamp : ℕ → ℕ → Rtt → Rtt
note_stamp now ts s =
    if not (ts == 0) && not (ts == s.ts_rx) then record s { ts_rx = ts; ts_rx_time = now } else s

-- One measurement. No value here passes 8 times the longest time that 15 bits of ticks stand for, so
-- Go's `int64` does not wrap.
unfoldable pub measure : ℕ → Rtt → Rtt
unfolding max_duration
measure rtt s =
    let delta = if ltb rtt s.srtt then s.srtt - rtt else rtt - s.srtt in
    let srtt = if s.srtt == 0 then rtt else (7 * s.srtt + rtt) / 8 in
    let rttvar = if s.srtt == 0 then rtt / 2 else (3 * s.rttvar + delta) / 4 in
    let mrto = srtt + 4 * rttvar + 200000000 in
    record s { srtt = srtt; rttvar = rttvar; mrto = mrto; erto = max_duration mrto 250000000 }

-- `now_ticks` is `timestamp()` and `now` is `time.Now()`.
unfoldable pub recv_packet_info : ℕ → ℕ → ℕ → ℕ → Rtt → Rtt
unfolding note_stamp measure
recv_packet_info now_ticks now ts echo s =
    let s' = note_stamp now ts s in
    let ticks = (now_ticks + 65536 - echo) % 65536 in
    let s'' = record s' { ts_echo_rx = echo } in
    if not (echo == 0) && not (echo == s'.ts_echo_rx)
    then (if leb ticks 32767 then measure (ticks * 4000000) s'' else s'')
    else s'
