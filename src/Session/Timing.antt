-- ===== src/Session/Timing.antt =====
-- Bounds of the timeouts of src/rtmfp/session.go.
use go_rtmfp.Prelude.{
  ℕ, ◌+◌, ◌-◌, ◌*◌, ◌%◌, ◌≤◌, true, false, not, ◌&&◌, leb, ◌==◌, if◌then◌else◌, arith, Bool-cases,
  inl, inr, leb→le,
}
use go_rtmfp.Session.{Rtt, max_duration, note_stamp, measure, recv_packet_info}

-- The longest time that is measured: 32767 ticks.
abbrev pub longest : ℕ
longest = 131068000000

-- The smoothed time and its variance are no longer than what can be measured, and the timeout in force is
-- not below the measured one, which they bound, nor below 250 milliseconds.
pub record IsTimed (s : Rtt) : Type 0 where
  pub srtt : s.srtt ≤ longest
  pub rttvar : s.rttvar ≤ longest
  pub ordered : s.mrto ≤ s.erto
  pub floor : 250000000 ≤ s.erto
  pub bounded : s.mrto ≤ 5 * longest + 200000000

measure-IsTimed : (rtt : ℕ) (s : Rtt) → rtt ≤ longest → IsTimed s → IsTimed (measure rtt s)
unfolding measure max_duration
measure-IsTimed rtt s h v = record {
  srtt = ground (arith, v.srtt);
  rttvar = ground (arith, v.srtt, v.rttvar);
  ordered = ground arith;
  floor = ground arith;
  bounded = ground (arith, v.srtt, v.rttvar);
}

note_stamp-IsTimed : (now ts : ℕ) (s : Rtt) → IsTimed s → IsTimed (note_stamp now ts s)
unfolding note_stamp
note_stamp-IsTimed now ts s v =
    elim (not (ts == 0) && not (ts == s.ts_rx))
      as (λ b. IsTimed (if b then record s { ts_rx = ts; ts_rx_time = now } else s)) [
        | true ↦ record {
          srtt = v.srtt;
          rttvar = v.rttvar;
          ordered = v.ordered;
          floor = v.floor;
          bounded = v.bounded;
        }
        | false ↦ v
      ]

echoed : (s : Rtt) (echo : ℕ) → IsTimed s → IsTimed (record s { ts_echo_rx = echo })
echoed s echo v = record {
  srtt = v.srtt;
  rttvar = v.rttvar;
  ordered = v.ordered;
  floor = v.floor;
  bounded = v.bounded;
}

-- Whatever time stamps a packet carries, and whenever it comes, `recv_packet_info` keeps the smoothed time and
-- its variance within the longest time that 15 bits of ticks stand for, the timeout in force at the
-- measured one or above it and at 250 milliseconds or above, and the measured one at most five times the
-- longest time and 200 milliseconds, if they were so before.
pub recv_packet_info-IsTimed :
    (now_ticks now ts echo : ℕ) (s : Rtt)
    → IsTimed s
    → IsTimed (recv_packet_info now_ticks now ts echo s)
unfolding recv_packet_info
recv_packet_info-IsTimed now_ticks now ts echo s v =
    let noted = note_stamp-IsTimed now ts s v in
    let ticks = (now_ticks + 65536 - echo) % 65536 in
    elim (Bool-cases (not (echo == 0) && not (echo == (note_stamp now ts s).ts_echo_rx))) [
      | inr e ↦ rw e noted
      | inl e ↦ rw e (elim (Bool-cases (leb ticks 32767)) [
        | inl k ↦ rw k (
            measure-IsTimed (ticks * 4000000) _ (omega (arith, leb→le ticks 32767 k))
              (echoed _ echo noted))
        | inr k ↦ rw k (echoed _ echo noted)
      ])
    ]
