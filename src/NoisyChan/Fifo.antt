-- ===== src/NoisyChan/Fifo.antt =====
-- The order in which src/rtmfp/noisy_chan.go sends packets where disorder is off.
use go_rtmfp.Prelude.{
  ℕ, ◌+◌, ◌≡◌, refl, sym, ap, ◌∙◌, true, false, List, [], ◌∷◌, ◌++◌, map, append-nil, append_assoc,
  drop, ltb, ◌==◌, if◌then◌else◌, arith, Bool-cases, inl, inr,
}
use mathlib.Core.Path.{subst}
use go_rtmfp.NoisyChan.{
  Item, NoisyChan, open_chan, new_item, push_back_packet, drops, recv_packet, update_send_bucket,
}
use go_rtmfp.NoisyChan.Sending.{
  Place, checking, parking, parked, picking, timing, delaying, metering, removing, resting, Loop,
  send_packet, remove, schedule_time, check_packets, pick_front, meter, send_step, signal, Event,
  arrives, sends, elapses, happens, run_chan, start,
}
use go_rtmfp.NoisyChan.Ledger.{leaving, update_send_bucket-same}

-- The item of the packet that an event lets in.
abbrev pub lets_in : Event → Loop → List Item
lets_in (arrives draw draw' size) l =
    if drops draw size l.chan then [] else new_item l.now size l.chan ∷ []
lets_in _ l = []

-- The items of the packets that the events let in, in the order in which they come.
abbrev pub admitted : List Event → Loop → List Item
admitted [] l = []
admitted (e ∷ es) l = lets_in e l ++ admitted es (happens e l)

-- The packets that have gone out and those that have not, without the one that is at both places.
abbrev pub passed : Loop → List Item
passed l = map (λ (x : Item × ℕ). x.0) l.chan.out ++ drop (leaving l.place) l.chan.packets

abbrev AtFront : Place → List Item → Type 0
AtFront (timing front) q = (r : List Item) × (q ≡ front ∷ r)
AtFront (delaying front) q = (r : List Item) × (q ≡ front ∷ r)
AtFront (metering front) q = (r : List Item) × (q ≡ front ∷ r)
AtFront (removing front) q = (r : List Item) × (q ≡ front ∷ r)
AtFront _ q = Unit {0}

-- Disorder is off, and what the loop has picked is the first element.
record IsFifo (l : Loop) : Type 0 where
  ordered : l.chan.disorder ≡ false
  front : AtFront l.place l.chan.packets

-- What a step leaves: the same packets in the same order, and what came in behind them.
record Passes (l : Loop) (more : List Item) (l' : Loop) : Type 0 where
  fifo : IsFifo l'
  passed : passed l' ≡ passed l ++ more

push_back_packet-append : (item : Item) (q : List Item) → push_back_packet item q ≡ q ++ item ∷ []
unfolding push_back_packet
push_back_packet-append item [] = refl
push_back_packet-append item (p ∷ q) = ap (◌∷◌ p) (push_back_packet-append item q)

-- A step that keeps the channel and what is leaving.
moved :
    (l : Loop) (p : Place)
    → IsFifo l
    → leaving p ≡ leaving l.place
    → AtFront p l.chan.packets
    → Passes l [] (record l { place = p })
moved l p h e k = record {
  fifo = record { ordered = h.ordered; front = k };
  passed = rw e (sym (append-nil _));
}

check_packets-moved :
    (l : Loop) (q : List Item)
    → IsFifo l
    → leaving l.place ≡ 0
    → Passes l [] (record l { place = check_packets q })
unfolding check_packets
check_packets-moved l [] h e = moved l parking h (sym e) tt
check_packets-moved l (p ∷ q) h e = moved l picking h (sym e) tt

pick_front-moved :
    (l : Loop) (q : List Item)
    → l.chan.packets ≡ q
    → IsFifo l
    → leaving l.place ≡ 0
    → Passes l [] (record l { place = pick_front q })
unfolding pick_front
pick_front-moved l [] k h e = moved l checking h (sym e) tt
pick_front-moved l (p ∷ q) k h e = moved l (timing p) h (sym e) (q, k)

time-moved :
    (l : Loop) (front : Item)
    → IsFifo l
    → leaving l.place ≡ 0
    → AtFront (timing front) l.chan.packets
    → Passes l [] (record l {
      place = if ltb l.now (schedule_time front l.chan) then delaying front else metering front;
    })
time-moved l front h e k = elim (Bool-cases (ltb l.now (schedule_time front l.chan))) [
  | inl b ↦ rw b (moved l (delaying front) h (sym e) k)
  | inr b ↦ rw b (moved l (metering front) h (sym e) k)
]

map-sent :
    (xs : List (Item × ℕ)) (x : Item × ℕ)
    → map (λ (y : Item × ℕ). y.0) (xs ++ x ∷ []) ≡ map (λ (y : Item × ℕ). y.0) xs ++ x.0 ∷ []
map-sent [] x = refl
map-sent (y ∷ xs) x = ap (◌∷◌ y.0) (map-sent xs x)

metered :
    (now b t wait : ℕ) (s : NoisyChan) (front : Item)
    → IsFifo (record { chan = s; place = metering front; now = now })
    → (let after = meter now front (record s { bucket = b; bucket_update_ts = t }, wait) in
        Passes
          (record { chan = s; place = metering front; now = now })
          []
          (record { chan = after.0; place = after.1; now = now }))
unfolding meter send_packet
metered now b t wait s front h =
    let (r, e) = h.front in
    let out = map (λ (y : Item × ℕ). y.0) s.out in
    elim (Bool-cases (wait == 0)) [
      | inl w ↦ rw w (record {
        fifo = record { ordered = h.ordered; front = (r, e) };
        passed =
            rw (e, map-sent s.out (front, now))
              (append_assoc out (front ∷ []) r ∙ sym (append-nil (out ++ front ∷ r)));
      })
      | inr w ↦ rw w (record {
        fifo = record { ordered = h.ordered; front = tt };
        passed = sym (append-nil (out ++ s.packets));
      })
    ]

send_step-Passes :
    (now : ℕ) (p : Place) (s : NoisyChan)
    → IsFifo (record { chan = s; place = p; now = now })
    → Passes
        (record { chan = s; place = p; now = now })
        []
        (record { chan = (send_step now p s).0; place = (send_step now p s).1; now = now })
unfolding send_step remove
send_step-Passes now checking s h = check_packets-moved _ s.packets h refl
send_step-Passes now parking s h = moved _ parked h refl tt
send_step-Passes now parked s h = moved _ parked h refl tt
send_step-Passes now picking s h = pick_front-moved _ s.packets refl h refl
send_step-Passes now (timing front) s h = time-moved _ front h refl h.front
send_step-Passes now (delaying front) s h = time-moved _ front h refl h.front
send_step-Passes now (metering front) s h =
    let (b, t, e) = update_send_bucket-same now front.size s in
    subst
      (λ r.
        Passes (record { chan = s; place = metering front; now = now }) []
          (record {
            chan = (meter now front (r, (update_send_bucket now front.size s).1)).0;
            place = (meter now front (r, (update_send_bucket now front.size s).1)).1;
            now = now;
          }))
      (sym e) (metered now b t (update_send_bucket now front.size s).1 s front h)
send_step-Passes now (removing front) s h =
    let (r, e) = h.front in
    let same : (front.number == front.number) ≡ true = ground arith in
    record {
      fifo = record { ordered = h.ordered; front = tt };
      passed = rw (e, same) (sym (append-nil _));
    }
send_step-Passes now (resting until) s h = elim (Bool-cases (ltb now until)) [
  | inl e ↦ rw e (moved _ (resting until) h refl tt)
  | inr e ↦ rw e (moved _ picking h refl tt)
]

front_stays :
    (front : Item) (q : List Item) (item : Item)
    → ((r : List Item) × (q ≡ front ∷ r))
    → (r : List Item) × (q ++ item ∷ [] ≡ front ∷ r)
front_stays front q item (r, e) = (r ++ item ∷ [], ap (λ x. x ++ item ∷ []) e)

-- An element that comes in goes behind the others.
drop-append :
    (p : Place) (q : List Item) (item : Item)
    → AtFront p q
    → (drop (leaving p) (q ++ item ∷ []) ≡ drop (leaving p) q ++ item ∷ [])
      × AtFront p (q ++ item ∷ [])
drop-append checking q item h = (refl, tt)
drop-append parking q item h = (refl, tt)
drop-append parked q item h = (refl, tt)
drop-append picking q item h = (refl, tt)
drop-append (timing front) q item h = (refl, front_stays front q item h)
drop-append (delaying front) q item h = (refl, front_stays front q item h)
drop-append (metering front) q item h = (refl, front_stays front q item h)
drop-append (removing front) q item h = (rw h.1 refl, front_stays front q item h)
drop-append (resting until) q item h = (refl, tt)

recv_packet-pushes :
    (draw draw' now size : ℕ) (s : NoisyChan)
    → s.disorder ≡ false
    → drops draw size s ≡ false
    → recv_packet draw draw' now size s
      ≡ record s { rx_count = s.rx_count + 1; packets = s.packets ++ new_item now size s ∷ [] }
unfolding recv_packet
recv_packet-pushes draw draw' now size s h e =
    rw (e, h, push_back_packet-append (new_item now size s) s.packets) refl

-- What a packet that comes in does to the list where disorder is off.
admits :
    (draw draw' size : ℕ) (l : Loop)
    → IsFifo l
    → drops draw size l.chan ≡ false
    → Passes l
        (new_item l.now size l.chan ∷ [])
        (record l { chan = recv_packet draw draw' l.now size l.chan })
admits draw draw' size l h e =
    let item = new_item l.now size l.chan in
    let (d, k) = drop-append l.place l.chan.packets item h.front in
    let out = map (λ (y : Item × ℕ). y.0) l.chan.out in
    subst (λ c. Passes l (item ∷ []) (record l { chan = c }))
      (sym (recv_packet-pushes draw draw' l.now size l.chan h.ordered e))
      (record {
        fifo = record { ordered = h.ordered; front = k };
        passed = rw d (sym (append_assoc out (drop (leaving l.place) l.chan.packets) (item ∷ [])));
      })

-- A signal moves no packet.
signal-moved :
    (s : NoisyChan) (p : Place) (now : ℕ) (before : Loop) (more : List Item)
    → Passes before more (record { chan = s; place = p; now = now })
    → Passes before more (record { chan = s; place = signal p; now = now })
unfolding signal
signal-moved s checking now before more h = h
signal-moved s parking now before more h = h
signal-moved s parked now before more h = record {
  fifo = record { ordered = h.fifo.ordered; front = tt };
  passed = h.passed;
}
signal-moved s picking now before more h = h
signal-moved s (timing front) now before more h = h
signal-moved s (delaying front) now before more h = h
signal-moved s (metering front) now before more h = h
signal-moved s (removing front) now before more h = h
signal-moved s (resting until) now before more h = h

-- A packet that is dropped is counted, and no more.
dropped :
    (draw draw' size : ℕ) (l : Loop)
    → IsFifo l
    → drops draw size l.chan ≡ true
    → Passes l [] (record l { chan = recv_packet draw draw' l.now size l.chan })
unfolding recv_packet
dropped draw draw' size l h e =
    rw e (record {
      fifo = record { ordered = h.ordered; front = h.front };
      passed = sym (append-nil _);
    })

happens-Passes : (e : Event) (l : Loop) → IsFifo l → Passes l (lets_in e l) (happens e l)
unfolding happens
happens-Passes (arrives draw draw' size) l h = elim (Bool-cases (drops draw size l.chan)) [
  | inl e ↦ rw e (dropped draw draw' size l h e)
  | inr e ↦ rw e (signal-moved _ l.place l.now l _ (admits draw draw' size l h e))
]
happens-Passes sends l h = send_step-Passes l.now l.place l.chan h
happens-Passes (elapses d) l h = record {
  fifo = record { ordered = h.ordered; front = h.front };
  passed = sym (append-nil (passed l));
}

run_chan-passed :
    (es : List Event) (l : Loop) → IsFifo l → passed (run_chan es l) ≡ passed l ++ admitted es l
unfolding run_chan
run_chan-passed [] l h = sym (append-nil (passed l))
run_chan-passed (e ∷ es) l h =
    let k = happens-Passes e l h in
    run_chan-passed es (happens e l) k.fifo
    ∙ rw k.passed (append_assoc (passed l) (lets_in e l) (admitted es (happens e l)))

start-IsFifo : (now : ℕ) (s : NoisyChan) → s.disorder ≡ false → IsFifo (start now s)
unfolding start open_chan
start-IsFifo now s e = elim (Bool-cases (ltb 0 s.speed)) [
  | inl k ↦ rw k (record { ordered = e; front = tt })
  | inr k ↦ rw k (record { ordered = e; front = tt })
]

start-passed : (now : ℕ) (s : NoisyChan) → passed (start now s) ≡ []
unfolding start open_chan
start-passed now s = elim (Bool-cases (ltb 0 s.speed)) [ inl k ↦ rw k refl | inr k ↦ rw k refl ]

-- A channel without disorder is a queue: after any interleaving of packets that come in with the steps of the sending
-- loop and the time that goes by, the packets that have gone out, followed by those that wait, are exactly the packets
-- that were let in, each once, in the order in which they came.
pub run_chan-fifo :
    (es : List Event) (now : ℕ) (s : NoisyChan)
    → s.disorder ≡ false
    → passed (run_chan es (start now s)) ≡ admitted es (start now s)
run_chan-fifo es now s e =
    run_chan-passed es (start now s) (start-IsFifo now s e) ∙ rw (start-passed now s) refl
