-- ===== src/NoisyChan/Ledger.antt =====
-- The accounts of src/rtmfp/noisy_chan.go over all interleavings of its two loops.
use go_rtmfp.Prelude.{
  ℕ, ◌+◌, ◌≤◌, ◌≡◌, refl, sym, true, List, [], ◌∷◌, ◌++◌, length, length-append, All, ltb, leb, ◌-◌,
  if◌then◌else◌, ◌==◌, arith, Bool-cases, inl, inr,
}
use mathlib.Core.Path.{subst}
use go_rtmfp.NoisyChan.{Item, NoisyChan, open_chan, filled, drops, recv_packet, update_send_bucket}
use go_rtmfp.NoisyChan.Counts.{FitsChan, recv_packet-balanced, recv_packet-rest}
use go_rtmfp.NoisyChan.Sending.{
  Place, checking, parking, parked, picking, timing, delaying, metering, removing, resting, Loop,
  send_packet, schedule_time, check_packets, pick_front, meter, send_step, signal, Event, arrives,
  sends, elapses, happens, run_chan, start,
}
use go_rtmfp.NoisyChan.Removal.{has, has-recv_packet, length-remove}

-- 1 while a packet that has gone out is still in the list.
abbrev pub leaving : Place → ℕ
leaving (removing front) = 1
leaving _ = 0

-- The packet went out when its delay had passed, or later.
abbrev pub IsTimely : ℕ → Item × ℕ → Type 0
IsTimely delay x = x.0.queued_time + delay ≤ x.1

-- The front that the loop has picked is in the list, and its time has come before it is metered.
abbrev IsPicked : ℕ → ℕ → Place → List Item → Type 0
IsPicked now delay (timing front) q = has front.number q ≡ true
IsPicked now delay (delaying front) q = has front.number q ≡ true
IsPicked now delay (metering front) q =
    (has front.number q ≡ true) × (front.queued_time + delay ≤ now)
IsPicked now delay (removing front) q = has front.number q ≡ true
IsPicked now delay _ q = Unit {0}

-- Every packet that came in was dropped, waits or went out; no more wait than the capacity; those that went out are
-- counted, and each did so no sooner than its delay.
pub record IsLedger (l : Loop) : Type 0 where
  pub accounted :
      l.chan.rx_count + leaving l.place
      ≡ l.chan.drop_count + length l.chan.packets + l.chan.tx_count
  pub fits : FitsChan l.chan
  pub counted : length l.chan.out ≡ l.chan.tx_count
  pub timely : All (IsTimely l.chan.delay) l.chan.out
  picked : IsPicked l.now l.chan.delay l.place l.chan.packets

All-append {ℓ κ} :
    {A : Type ℓ} (P : A → Type κ) (xs : List A) (a : A) → All P xs → P a → All P (xs ++ a ∷ [])
All-append P [] a h p = (p, tt)
All-append P (x ∷ xs) a h p = (h.0, All-append P xs a h.1 p)

-- Metering changes the bucket alone.
pub update_send_bucket-same :
    (now data_len : ℕ) (s : NoisyChan)
    → (b t : ℕ) × ((update_send_bucket now data_len s).0
        ≡ record s { bucket = b; bucket_update_ts = t })
unfolding update_send_bucket
update_send_bucket-same now data_len s = elim (Bool-cases (s.bucket_inc_rate == 0)) [
  | inl e ↦ rw e (s.bucket, s.bucket_update_ts, refl)
  | inr e ↦ elim (Bool-cases (leb data_len (filled now s))) [
    | inl k ↦ rw (e, k) (filled now s - data_len, now, refl)
    | inr k ↦ rw (e, k) (filled now s, now, refl)
  ]
]

-- A step of the loop that leaves the channel as it is, and where it takes it.
moved :
    (l : Loop) (p : Place)
    → IsLedger l
    → leaving p ≡ leaving l.place
    → IsPicked l.now l.chan.delay p l.chan.packets
    → IsLedger (record l { place = p })
moved l p h e k = record {
  accounted = omega (arith, h.accounted);
  fits = h.fits;
  counted = h.counted;
  timely = h.timely;
  picked = k;
}

check_packets-moved :
    (now : ℕ) (s : NoisyChan) (q : List Item)
    → IsLedger (record { chan = s; place = checking; now = now })
    → IsLedger (record { chan = s; place = check_packets q; now = now })
unfolding check_packets
check_packets-moved now s [] h = moved _ parking h refl tt
check_packets-moved now s (p ∷ q) h = moved _ picking h refl tt

pick_front-moved :
    (now : ℕ) (s : NoisyChan) (q : List Item)
    → s.packets ≡ q
    → IsLedger (record { chan = s; place = picking; now = now })
    → IsLedger (record { chan = s; place = pick_front q; now = now })
unfolding pick_front
pick_front-moved now s [] e h = moved _ checking h refl tt
pick_front-moved now s (p ∷ q) e h = moved _ (timing p) h refl (rw e (ground arith))

time-moved :
    (now : ℕ) (s : NoisyChan) (front : Item) (p : Place)
    → leaving p ≡ 0
    → has front.number s.packets ≡ true
    → IsLedger (record { chan = s; place = p; now = now })
    → IsLedger (record {
      chan = s;
      place = if ltb now (schedule_time front s) then delaying front else metering front;
      now = now;
    })
unfolding schedule_time
time-moved now s front p e k h = elim (Bool-cases (ltb now (schedule_time front s))) [
  | inl b ↦ rw b (moved _ (delaying front) h (omega (arith, e)) k)
  | inr b ↦ rw b (moved _ (metering front) h (omega (arith, e)) (k, ground (arith, b)))
]

-- The packet goes out where there is no time to wait.
metered :
    (now b t wait : ℕ) (s : NoisyChan) (front : Item)
    → IsLedger (record { chan = s; place = metering front; now = now })
    → (let after = meter now front (record s { bucket = b; bucket_update_ts = t }, wait) in
        IsLedger (record { chan = after.0; place = after.1; now = now }))
unfolding meter send_packet
metered now b t wait s front h = elim (Bool-cases (wait == 0)) [
  | inl e ↦ rw e (record {
    accounted = omega (arith, h.accounted);
    fits = h.fits;
    counted = omega (arith, length-append s.out ((front, now) ∷ []), h.counted);
    timely = All-append (IsTimely s.delay) s.out (front, now) h.timely h.picked.1;
    picked = h.picked.0;
  })
  | inr e ↦ rw e (record {
    accounted = h.accounted;
    fits = h.fits;
    counted = h.counted;
    timely = h.timely;
    picked = tt;
  })
]

send_step-IsLedger :
    (now : ℕ) (p : Place) (s : NoisyChan)
    → IsLedger (record { chan = s; place = p; now = now })
    → IsLedger (record { chan = (send_step now p s).0; place = (send_step now p s).1; now = now })
unfolding send_step
send_step-IsLedger now checking s h = check_packets-moved now s s.packets h
send_step-IsLedger now parking s h = moved _ parked h refl tt
send_step-IsLedger now parked s h = h
send_step-IsLedger now picking s h = pick_front-moved now s s.packets refl h
send_step-IsLedger now (timing front) s h = time-moved now s front (timing front) refl h.picked h
send_step-IsLedger now (delaying front) s h =
    time-moved now s front (delaying front) refl h.picked h
send_step-IsLedger now (metering front) s h =
    let (b, t, e) = update_send_bucket-same now front.size s in
    subst
      (λ r. IsLedger (record {
        chan = (meter now front (r, (update_send_bucket now front.size s).1)).0;
        place = (meter now front (r, (update_send_bucket now front.size s).1)).1;
        now = now;
      }))
      (sym e) (metered now b t (update_send_bucket now front.size s).1 s front h)
send_step-IsLedger now (removing front) s h =
    let n = length-remove front s.packets h.picked in
    record {
      accounted = omega (arith, n, h.accounted);
      fits = ground (arith, n, h.fits);
      counted = h.counted;
      timely = h.timely;
      picked = tt;
    }
send_step-IsLedger now (resting until) s h = elim (Bool-cases (ltb now until)) [
  | inl e ↦ rw e h
  | inr e ↦ rw e (moved _ picking h refl tt)
]

later-IsPicked :
    (now d delay : ℕ) (p : Place) (q : List Item)
    → IsPicked now delay p q
    → IsPicked (now + d) delay p q
later-IsPicked now d delay checking q h = tt
later-IsPicked now d delay parking q h = tt
later-IsPicked now d delay parked q h = tt
later-IsPicked now d delay picking q h = tt
later-IsPicked now d delay (timing front) q h = h
later-IsPicked now d delay (delaying front) q h = h
later-IsPicked now d delay (metering front) q h = (h.0, omega (arith, h.1))
later-IsPicked now d delay (removing front) q h = h
later-IsPicked now d delay (resting until) q h = tt

-- What is picked stays in the list when a packet comes in.
arrived-IsPicked :
    (draw draw' size now : ℕ) (p : Place) (s : NoisyChan)
    → IsPicked now s.delay p s.packets
    → IsPicked now s.delay p (recv_packet draw draw' now size s).packets
arrived-IsPicked draw draw' size now checking s h = tt
arrived-IsPicked draw draw' size now parking s h = tt
arrived-IsPicked draw draw' size now parked s h = tt
arrived-IsPicked draw draw' size now picking s h = tt
arrived-IsPicked draw draw' size now (timing front) s h =
    has-recv_packet front.number draw draw' now size s h
arrived-IsPicked draw draw' size now (delaying front) s h =
    has-recv_packet front.number draw draw' now size s h
arrived-IsPicked draw draw' size now (metering front) s h =
    (has-recv_packet front.number draw draw' now size s h.0, h.1)
arrived-IsPicked draw draw' size now (removing front) s h =
    has-recv_packet front.number draw draw' now size s h
arrived-IsPicked draw draw' size now (resting until) s h = tt

signal-moved :
    (s : NoisyChan) (p : Place) (now : ℕ)
    → IsLedger (record { chan = s; place = p; now = now })
    → IsLedger (record { chan = s; place = signal p; now = now })
unfolding signal
signal-moved s checking now h = h
signal-moved s parking now h = h
signal-moved s parked now h = moved _ checking h refl tt
signal-moved s picking now h = h
signal-moved s (timing front) now h = h
signal-moved s (delaying front) now h = h
signal-moved s (metering front) now h = h
signal-moved s (removing front) now h = h
signal-moved s (resting until) now h = h

arrived :
    (draw draw' size : ℕ) (l : Loop)
    → IsLedger l
    → IsLedger (record l { chan = recv_packet draw draw' l.now size l.chan })
arrived draw draw' size l h =
    let (balanced, fits) = recv_packet-balanced draw draw' l.now size l.chan h.fits in
    let (delay, tx, out) = recv_packet-rest draw draw' l.now size l.chan in
    record {
      accounted = omega (arith, balanced, tx, h.accounted);
      fits = fits;
      counted = rw (out, tx) h.counted;
      timely = rw (out, delay) h.timely;
      picked = rw delay (arrived-IsPicked draw draw' size l.now l.place l.chan h.picked);
    }

happens-IsLedger : (e : Event) (l : Loop) → IsLedger l → IsLedger (happens e l)
unfolding happens
happens-IsLedger (arrives draw draw' size) l h = elim (Bool-cases (drops draw size l.chan)) [
  | inl e ↦ rw e (arrived draw draw' size l h)
  | inr e ↦ rw e (signal-moved _ l.place l.now (arrived draw draw' size l h))
]
happens-IsLedger sends l h = send_step-IsLedger l.now l.place l.chan h
happens-IsLedger (elapses d) l h = record {
  accounted = h.accounted;
  fits = h.fits;
  counted = h.counted;
  timely = h.timely;
  picked = later-IsPicked l.now d l.chan.delay l.place l.chan.packets h.picked;
}

run_chan_keeps : (es : List Event) (l : Loop) → IsLedger l → IsLedger (run_chan es l)
unfolding run_chan
run_chan_keeps [] l h = h
run_chan_keeps (e ∷ es) l h = run_chan_keeps es (happens e l) (happens-IsLedger e l h)

start-IsLedger :
    (now : ℕ) (s : NoisyChan)
    → s.rx_count ≡ 0
    → s.drop_count ≡ 0
    → s.tx_count ≡ 0
    → IsLedger (start now s)
unfolding start open_chan
start-IsLedger now s rx dropped tx = elim (Bool-cases (ltb 0 s.speed)) [
  | inl e ↦ rw e (record {
    accounted = omega (arith, rx, dropped, tx);
    fits = inr (omega arith);
    counted = omega (arith, tx);
    timely = tt;
    picked = tt;
  })
  | inr e ↦ rw e (record {
    accounted = omega (arith, rx, dropped, tx);
    fits = inr (omega arith);
    counted = omega (arith, tx);
    timely = tt;
    picked = tt;
  })
]

-- A channel opened with its counts at 0: after any interleaving of packets that come in, whatever the draws, with the
-- steps of the sending loop and the time that goes by, every packet that came in was dropped, waits or went out (one
-- that goes out is at both places until its element is removed), no more wait than the capacity, where there is one,
-- the packets that went out are counted, and each went out when the delay from its arrival had passed, or later.
pub run_chan-IsLedger :
    (es : List Event) (now : ℕ) (s : NoisyChan)
    → s.rx_count ≡ 0
    → s.drop_count ≡ 0
    → s.tx_count ≡ 0
    → IsLedger (run_chan es (start now s))
run_chan-IsLedger es now s rx dropped tx =
    run_chan_keeps es (start now s) (start-IsLedger now s rx dropped tx)
