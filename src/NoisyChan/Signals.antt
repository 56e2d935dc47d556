-- ===== src/NoisyChan/Signals.antt =====
-- The signals between the two loops of src/rtmfp/noisy_chan.go.
use go_rtmfp.Prelude.{ℕ, ◌≡◌, refl, sym, ◌∙◌, false, List, [], ◌∷◌, All, ltb, Bool-cases, inl, inr}
use mathlib.Core.Path.{subst}
use go_rtmfp.NoisyChan.{
  NoisyChan, open_chan, new_item, push_back_packet, disorders, drops, recv_packet,
}
use go_rtmfp.NoisyChan.Counts.{recv_packet-rest}
use go_rtmfp.NoisyChan.Sending.{
  checking, parked, Loop, check_packets, send_step, signal, Event, arrives, sends, elapses, happens,
  run_chan, start,
}

-- No packet comes in.
abbrev pub IsQuiet : Event → Type 0
IsQuiet (arrives draw draw' size) = ⊥
IsQuiet _ = Unit {0}

-- A loop in `Wait` stays there without a signal.
parked-stays :
    (es : List Event) (l : Loop)
    → All IsQuiet es
    → l.place ≡ parked
    → ((run_chan es l).place ≡ parked) × ((run_chan es l).chan ≡ l.chan)
unfolding run_chan happens send_step
parked-stays [] l q e = (e, refl)
parked-stays (arrives draw draw' size ∷ es) l q e = absurd q.0
parked-stays (sends ∷ es) l q e =
    let (p, c) = parked-stays es (happens sends l) q.1 (rw (e, happens, send_step) refl) in
    (p, c ∙ rw e refl)
parked-stays (elapses d ∷ es) l q e = parked-stays es (happens (elapses d) l) q.1 e

open_chan-empty :
    (now : ℕ) (s : NoisyChan) → ((open_chan now s).packets ≡ []) × ((open_chan now s).out ≡ [])
unfolding open_chan
open_chan-empty now s = elim (Bool-cases (ltb 0 s.speed)) [
  | inl e ↦ rw e (refl, refl)
  | inr e ↦ rw e (refl, refl)
]

-- A packet that is let in to an empty list is alone in it.
recv_packet-alone :
    (draw draw' now size : ℕ) (s : NoisyChan)
    → s.packets ≡ []
    → drops draw size s ≡ false
    → (recv_packet draw draw' now size s).packets ≡ new_item now size s ∷ []
unfolding recv_packet push_back_packet go_rtmfp.NoisyChan.insert_before_back
recv_packet-alone draw draw' now size s p e = elim (Bool-cases (disorders draw' s)) [
  | inl d ↦ rw (e, d, p) refl
  | inr d ↦ rw (e, d, p) refl
]

-- The first three steps leave the loop in `Wait` with the packet in the list.
missed :
    (draw draw' size now : ℕ) (s : NoisyChan)
    → s.packets ≡ []
    → drops draw size s ≡ false
    → happens sends (
        happens
          (arrives draw draw' size)
          (happens sends (record { chan = s; place = checking; now = now })))
      ≡ record { chan = recv_packet draw draw' now size s; place = parked; now = now }
unfolding happens send_step check_packets signal
missed draw draw' size now s p e = rw (e, p, check_packets, signal, send_step) refl

-- The two loops of a new channel: a packet that is let in after the sending loop has seen the empty list and before it
-- is in `Wait` stays in the list and nothing is sent, however long no further packet comes in.
pub run_chan-lost_signal :
    (draw draw' size : ℕ) (es : List Event) (now : ℕ) (s : NoisyChan)
    → drops draw size (open_chan now s) ≡ false
    → All IsQuiet es
    → (let l = run_chan (sends ∷ arrives draw draw' size ∷ sends ∷ es) (start now s) in
        (l.place ≡ parked)
        × (l.chan.packets ≡ new_item now size (open_chan now s) ∷ [])
        × (l.chan.out ≡ []))
unfolding start run_chan
run_chan-lost_signal draw draw' size es now s e q =
    let (empty, out) = open_chan-empty now s in
    let (p, c) =
      parked-stays es
        (record {
          chan = recv_packet draw draw' now size (open_chan now s);
          place = parked;
          now = now;
        })
        q refl in
    let stays = λ (x : Loop).
      ((run_chan es x).place ≡ parked)
      × ((run_chan es x).chan.packets ≡ new_item now size (open_chan now s) ∷ [])
      × ((run_chan es x).chan.out ≡ []) in
    subst stays (sym (missed draw draw' size now (open_chan now s) empty e)) (
      p,
      rw c (recv_packet-alone draw draw' now size (open_chan now s) empty e),
      rw (c, (recv_packet-rest draw draw' now size (open_chan now s)).2) out,
    )
