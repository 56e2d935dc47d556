-- ===== src/Session/Stamps.antt =====
-- The time stamps of `send_chunk` in src/rtmfp/session.go, and the round-trip time that the far end measures by them.
use go_rtmfp.Prelude.{
  ℕ, ◌+◌, ◌-◌, ◌*◌, ◌/◌, ◌%◌, ◌≤◌, ◌≡◌, ◌≢◌, refl, true, false, Option, none, some, List, [], ltb,
  leb, ◌==◌, ◌>>=◌, if◌then◌else◌, arith, Bool-cases, inl, inr,
}
use go_rtmfp.Packet.{Cipher, init, add_chunk, pack}
use go_rtmfp.Session.{Rtt, note_stamp, measure, recv_packet_info}
use go_rtmfp.Session.Keys.{mode_startup}

-- The fields of `session` that `send_chunk` uses. The zero `time.Time` is 0, and every time is more than 128 seconds
-- after it.
pub record Sender : Type 0 where
  pub mode : ℕ
  pub ekey : Option (List ℕ)
  pub other_sessionid : ℕ
  pub ts_tx : ℕ
  pub ts_echo_tx : ℕ
  pub rtt : Rtt

-- The time stamp, which is written only where it has changed since the last.
unfoldable pub stamp_now : ℕ → Sender → Sender × ℕ
stamp_now cur_ts s = if s.ts_tx == cur_ts then (s, 0) else (record s { ts_tx = cur_ts }, cur_ts)

-- `uint16` of a time in ticks of 4 milliseconds.
unfoldable pub ticks_of : ℕ → ℕ
ticks_of elapsed = elapsed / 4000000 % 65536

unfoldable pub forget_stamp : Sender → Sender
forget_stamp s = record s { rtt = record s.rtt { ts_rx = 0; ts_rx_time = 0 } }

-- The echo of the last stamp received, moved on by the time since then, within 128 seconds.
unfoldable pub stamp_echo : ℕ → Sender → Sender × ℕ
unfolding ticks_of forget_stamp
stamp_echo now s =
    let elapsed = now - s.rtt.ts_rx_time in
    let ts_echo = (s.rtt.ts_rx + ticks_of elapsed) % 65536 in
    if ltb 128000000000 elapsed
    then (forget_stamp s, 0)
    else if ts_echo == s.ts_echo_tx
    then (s, 0)
    else (record s { ts_echo_tx = ts_echo }, ts_echo)

-- `send_chunk`, at `timestamp()` and `time.Now()`: the session and the packet.
unfoldable pub send_chunk : Cipher → ℕ → ℕ → ℕ → List ℕ → Sender → Option (Sender × List ℕ)
unfolding stamp_now stamp_echo
send_chunk cipher cur_ts now chunk_type body s =
    let stamped = stamp_now cur_ts s in
    let echoed = stamp_echo now stamped.0 in
    let rikeying = chunk_type == 0x78 in
    let p =
      add_chunk
        (init (record {
          time_critical = false;
          time_critical_reverse = false;
          time_stamp = stamped.1;
          time_stamp_echo = echoed.1;
          mode = if rikeying then mode_startup else s.mode;
          buf = [];
        }))
        chunk_type body in
    pack cipher p s.other_sessionid (if rikeying then none else s.ekey) >>= λ packed.
    some (echoed.0, packed)

-- The ticks for which a session holds a stamp before it echoes it.
abbrev pub held_ticks : ℕ → Sender → ℕ
held_ticks now s = (now - s.rtt.ts_rx_time) / 4000000

stamp_echo-tick :
    (sent now : ℕ) (s : Sender)
    → s.rtt.ts_rx ≡ sent % 65536
    → now - s.rtt.ts_rx_time ≤ 128000000000
    → (sent + held_ticks now s) % 65536 ≢ s.ts_echo_tx
    → (stamp_echo now s).1 ≡ (sent + held_ticks now s) % 65536
unfolding stamp_echo ticks_of
stamp_echo-tick sent now s e h n = ground arith

stamped-echo :
    (cur sent now : ℕ) (s : Sender)
    → s.rtt.ts_rx ≡ sent % 65536
    → now - s.rtt.ts_rx_time ≤ 128000000000
    → (sent + held_ticks now s) % 65536 ≢ s.ts_echo_tx
    → (stamp_echo now (stamp_now cur s).0).1 ≡ (sent + held_ticks now s) % 65536
unfolding stamp_now
stamped-echo cur sent now s e h n = elim (Bool-cases (s.ts_tx == cur)) [
  | inl z ↦ rw (z, stamp_now) (stamp_echo-tick sent now s e h n)
  | inr z ↦ rw (z, stamp_now) (stamp_echo-tick sent now (record s { ts_tx = cur }) e h n)
]

note_stamp-echo : (now ts : ℕ) (a : Rtt) → (note_stamp now ts a).ts_echo_rx ≡ a.ts_echo_rx
unfolding note_stamp
note_stamp-echo now ts a = ground arith

echo_measured :
    (n now ts echo trip : ℕ) (a : Rtt)
    → echo ≢ 0
    → echo ≢ a.ts_echo_rx
    → (n % 65536 + 65536 - echo) % 65536 ≡ trip
    → trip ≤ 32767
    → recv_packet_info (n % 65536) now ts echo a
      ≡ measure (trip * 4000000) (record (note_stamp now ts a) { ts_echo_rx = echo })
unfolding recv_packet_info
echo_measured n now ts echo trip a h k e l =
    let same = note_stamp-echo now ts a in
    let z : (echo == 0) ≡ false = ground arith in
    let y : (echo == (note_stamp now ts a).ts_echo_rx) ≡ false = ground arith in
    let w : leb trip 32767 ≡ true = ground arith in rw (z, y, e, w) refl

-- The round-trip time is that of the packets alone. A session got a stamp that the far end took at the tick `sent`, and
-- sends a packet at most 128 seconds later; the far end gets that at its tick `n`. Then the far end measures exactly the
-- ticks from `sent` to `n` without those for which the session held the stamp, for any wrap-around of the 16 bits. This is
-- where the echo is not the one sent or got before and not 0, which stands for none, and where the measured time is
-- fewer than 2^15 ticks and not negative.
pub recv_packet_info-stamp_echo :
    (cur now sent n far_now : ℕ) (s : Sender) (a : Rtt)
    → s.rtt.ts_rx ≡ sent % 65536
    → now - s.rtt.ts_rx_time ≤ 128000000000
    → (sent + held_ticks now s) % 65536 ≢ s.ts_echo_tx
    → (sent + held_ticks now s) % 65536 ≢ a.ts_echo_rx
    → (sent + held_ticks now s) % 65536 ≢ 0
    → sent + held_ticks now s ≤ n
    → n - (sent + held_ticks now s) ≤ 32767
    → let stamped = stamp_now cur s in
      let echoed = stamp_echo now stamped.0 in
      recv_packet_info (n % 65536) far_now stamped.1 echoed.1 a
      ≡ measure ((n - sent - held_ticks now s) * 4000000) (record (note_stamp far_now stamped.1 a) {
        ts_echo_rx = (sent + held_ticks now s) % 65536;
      })
recv_packet_info-stamp_echo cur now sent n far_now s a e h own far some_echo le fits =
    let echo = (sent + held_ticks now s) % 65536 in
    rw (stamped-echo cur sent now s e h own) (
      echo_measured n far_now (stamp_now cur s).1 echo (n - sent - held_ticks now s) a some_echo far
        (omega arith) (omega arith))
