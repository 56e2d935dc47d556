-- ===== src/Socket/Bursts.antt =====
-- What the loop `recv` of src/rtmfp/socket_bin.go passes on, and how many errors it bears.
use go_rtmfp.Prelude.{
  ℕ, zero, suc, ◌+◌, ◌≤◌, ◌≡◌, refl, sym, ap, ◌∙◌, true, false, none, some, List, [], ◌∷◌, ◌++◌,
  map, append_assoc, append-nil, ltb, All, replicate, arith,
}
use go_rtmfp.Socket.{Datagram, Round, reading, panicked, packet_of, recv_loop}

abbrev pub failure : Round
failure = record { is_closed = false; received = none }

abbrev pub success : Datagram → Round
success d = record { is_closed = false; received = some d }

-- The rounds of datagrams, each behind a number of errors.
abbrev pub rounds_of : List (ℕ × Datagram) → List Round
rounds_of [] = []
rounds_of (b ∷ bs) = replicate b.0 failure ++ success b.1 ∷ rounds_of bs

abbrev pub packets_of : List (ℕ × Datagram) → List Datagram
packets_of bs = map (λ (b : ℕ × Datagram). packet_of b.1) bs

-- Errors that are borne only count.
failures :
    (n e : ℕ) (rounds : List Round) (out : List Datagram)
    → e + n ≤ 1000
    → recv_loop e (replicate n failure ++ rounds) out ≡ recv_loop (e + n) rounds out
unfolding recv_loop
failures zero e rounds out h = ap (λ k. recv_loop k rounds out) (omega arith)
failures (suc n) e rounds out h =
    let borne : ltb 1000 (e + 1) ≡ false = ground arith in
    let one : recv_loop e (replicate (suc n) failure ++ rounds) out
        ≡ recv_loop (e + 1) (replicate n failure ++ rounds) out =
      rw borne refl in
    one
    ∙ failures n (e + 1) rounds out (omega arith)
    ∙ ap (λ k. recv_loop k rounds out) (omega arith)

bursts :
    (bs : List (ℕ × Datagram)) (rest : List Round) (out : List Datagram)
    → All (λ (b : ℕ × Datagram). b.0 ≤ 1000) bs
    → recv_loop 0 (rounds_of bs ++ rest) out ≡ recv_loop 0 rest (out ++ packets_of bs)
unfolding recv_loop
bursts [] rest out h = rw append-nil refl
bursts ((n, d) ∷ bs) rest out (h, hs) =
    ap (λ r. recv_loop 0 r out) (append_assoc (replicate n failure) (success d ∷ rounds_of bs) rest)
    ∙ failures n 0 (success d ∷ (rounds_of bs ++ rest)) out (omega arith)
    ∙ bursts bs rest (out ++ packet_of d ∷ []) hs
    ∙ ap (recv_loop 0 rest) (append_assoc out (packet_of d ∷ []) (packets_of bs))

too_many_from :
    (n e : ℕ) (rest : List Round) (out : List Datagram)
    → e + n ≡ 1000
    → recv_loop e (replicate (suc n) failure ++ rest) out ≡ panicked out
unfolding recv_loop
too_many_from zero e rest out h = let over : ltb 1000 (e + 1) ≡ true = ground arith in rw over refl
too_many_from (suc n) e rest out h =
    let borne : ltb 1000 (e + 1) ≡ false = ground arith in
    rw borne (too_many_from n (e + 1) rest out (omega arith))

-- While the socket is open, `recv` passes on every datagram that comes, in order and cut to 2048 bytes, whatever errors
-- come between, as long as no more than 1000 of them follow each other; then it waits for the next. At the error that
-- follows 1000 others without a datagram between it panics, whatever would come later.
pub recv_loop-bursts :
    (bs : List (ℕ × Datagram)) (n : ℕ) (rest : List Round)
    → All (λ (b : ℕ × Datagram). b.0 ≤ 1000) bs
    → n ≤ 1000
    → (recv_loop 0 (rounds_of bs ++ replicate n failure) [] ≡ reading n (packets_of bs))
      × (recv_loop 0 (rounds_of bs ++ (replicate 1001 failure ++ rest)) []
          ≡ panicked (packets_of bs))
recv_loop-bursts bs n rest h k = (
  bursts bs (replicate n failure) [] h
      ∙ ap (λ r. recv_loop 0 r (packets_of bs)) (sym (append-nil (replicate n failure)))
      ∙ failures n 0 [] (packets_of bs) (omega arith)
      ∙ (unfold recv_loop in ap (λ m. reading m (packets_of bs)) (omega arith)),
  bursts bs (replicate 1001 failure ++ rest) [] h ∙ too_many_from 1000 0 rest (packets_of bs) refl,
)
