-- ===== src/NoisyChan/Counts.antt =====
-- The counts of packets of src/rtmfp/noisy_chan.go.
use go_rtmfp.Prelude.{
  ℕ, ◌+◌, ◌≤◌, ◌≡◌, refl, List, [], ◌∷◌, ◌⊎◌, length, arith, Bool-cases, inl, inr,
}
use go_rtmfp.NoisyChan.{
  Item, NoisyChan, insert_before_back, push_back_packet, new_item, drops, recv_packet,
}

pub length-insert_before_back :
    (item : Item) (q : List Item) → length (insert_before_back item q) ≡ length q + 1
unfolding insert_before_back
length-insert_before_back item [] = refl
length-insert_before_back item (p ∷ []) = omega arith
length-insert_before_back item (p ∷ q ∷ r) = omega (arith, length-insert_before_back item (q ∷ r))

pub length-push_back_packet :
    (item : Item) (q : List Item) → length (push_back_packet item q) ≡ length q + 1
unfolding push_back_packet
length-push_back_packet item [] = refl
length-push_back_packet item (p ∷ r) = omega (arith, length-push_back_packet item r)

-- Every packet that came in was dropped, waits or was sent.
abbrev pub IsAccounted : NoisyChan → Type 0
IsAccounted s = s.rx_count ≡ s.drop_count + length s.packets + s.tx_count

-- No more packets wait than the capacity, where there is one.
abbrev pub FitsChan : NoisyChan → Type 0
FitsChan s = (s.capacity ≡ 0) ⊎ (length s.packets ≤ s.capacity)

-- A packet that comes in is counted once, as dropped or as waiting, and does not exceed the capacity.
pub recv_packet-balanced :
    (draw draw' now size : ℕ) (s : NoisyChan)
    → FitsChan s
    → (let s' = recv_packet draw draw' now size s in
        (s'.rx_count + (s.drop_count + length s.packets)
          ≡ s.rx_count + (s'.drop_count + length s'.packets))
        × FitsChan s')
unfolding recv_packet drops
recv_packet-balanced draw draw' now size s k = ground (
  arith,
  length-insert_before_back (new_item now size s) s.packets,
  length-push_back_packet (new_item now size s) s.packets,
)

-- The fields that `recv_packet` does not change.
pub recv_packet-rest :
    (draw draw' now size : ℕ) (s : NoisyChan)
    → ((recv_packet draw draw' now size s).delay ≡ s.delay)
      × ((recv_packet draw draw' now size s).tx_count ≡ s.tx_count)
      × ((recv_packet draw draw' now size s).out ≡ s.out)
unfolding recv_packet
recv_packet-rest draw draw' now size s = elim (Bool-cases (drops draw size s)) [
  | inl e ↦ rw e (refl, refl, refl)
  | inr e ↦ rw e (refl, refl, refl)
]

-- If every packet that came in was dropped, waits or was sent, and no more wait than the capacity, where there
-- is one, then both hold after `recv_packet`, whatever the draws, the size, and the order of the queue.
recv_packet-IsAccounted :
    (draw draw' now size : ℕ) (s : NoisyChan)
    → IsAccounted s
    → FitsChan s
    → IsAccounted (recv_packet draw draw' now size s) × FitsChan (recv_packet draw draw' now size s)
recv_packet-IsAccounted draw draw' now size s h k =
    let (b, fits) = recv_packet-balanced draw draw' now size s k in
    (omega (arith, b, h, (recv_packet-rest draw draw' now size s).1), fits)
