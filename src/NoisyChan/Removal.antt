-- ===== src/NoisyChan/Removal.antt =====
-- Elements of the list of src/rtmfp/noisy_chan.go: where they are put, and how one is removed.
use go_rtmfp.Prelude.{
  ℕ, ◌+◌, ◌≡◌, Bool, true, false, ◌||◌, List, [], ◌∷◌, length, ◌==◌, arith, Bool-cases, inl, inr,
}
use go_rtmfp.NoisyChan.{
  Item, NoisyChan, insert_before_back, push_back_packet, new_item, disorders, drops, recv_packet,
}
use go_rtmfp.NoisyChan.Sending.{remove}

-- Whether an element of the number is in the list.
abbrev pub has : ℕ → List Item → Bool
has n [] = false
has n (p ∷ q) = p.number == n || has n q

has-insert_before_back :
    (n : ℕ) (item : Item) (q : List Item)
    → has n q ≡ true
    → has n (insert_before_back item q) ≡ true
unfolding insert_before_back
has-insert_before_back n item [] h = absurd (cc)
has-insert_before_back n item (p ∷ []) h = ground (arith)
has-insert_before_back n item (p ∷ q ∷ r) h = ground (arith, has-insert_before_back n item (q ∷ r))

has-push_back_packet :
    (n : ℕ) (item : Item) (q : List Item) → has n q ≡ true → has n (push_back_packet item q) ≡ true
unfolding push_back_packet
has-push_back_packet n item [] h = absurd (cc)
has-push_back_packet n item (p ∷ q) h = ground (arith, has-push_back_packet n item q)

-- A packet that comes in leaves every element in the list.
pub has-recv_packet :
    (n draw draw' now size : ℕ) (s : NoisyChan)
    → has n s.packets ≡ true
    → has n (recv_packet draw draw' now size s).packets ≡ true
unfolding recv_packet
has-recv_packet n draw draw' now size s h = elim (Bool-cases (drops draw size s)) [
  | inl e ↦ rw e h
  | inr e ↦ elim (Bool-cases (disorders draw' s)) [
    | inl d ↦ rw (e, d) (has-insert_before_back n (new_item now size s) s.packets h)
    | inr d ↦ rw (e, d) (has-push_back_packet n (new_item now size s) s.packets h)
  ]
]

pub length-remove :
    (front : Item) (q : List Item)
    → has front.number q ≡ true
    → length (remove front q) + 1 ≡ length q
unfolding remove
length-remove front [] h = absurd (cc)
length-remove front (p ∷ q) h = ground (arith, length-remove front q)
