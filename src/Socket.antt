-- ===== src/Socket.antt =====
-- `socket_bin` of src/rtmfp/socket_bin.go. What `ReadFrom` of package net gives, and when the socket is closed, are
-- arguments; what goes to the channel `out` and to the net are lists.
pub mod Bursts
use go_rtmfp.Prelude.{
  ℕ, ◌+◌, Bool, true, false, Option, none, some, List, [], ◌∷◌, ◌++◌, ltb, if◌then◌else◌, take,
}

abbrev pub max_udp_packet_size : ℕ
max_udp_packet_size = 2048

-- A datagram at the net, and a packet with it: `data: buf[:readed_size]` of a buffer of that size.
pub record Datagram : Type 0 where
  pub data_bytes : List ℕ
  pub addr : List ℕ

unfoldable pub packet_of : Datagram → Datagram
packet_of d = record d { data_bytes = take max_udp_packet_size d.data_bytes }

-- A round of `recv`: whether the socket is closed at its start, and the result of `ReadFrom`, none for an error.
pub record Round : Type 0 where
  pub is_closed : Bool
  pub received : Option Datagram

-- `recv` waits for a datagram with its count of errors, has returned, or has panicked; with what went to `out`.
pub data Reading : Type 0 where
  reading : (err_count : ℕ) → List Datagram → Reading
  returned : List Datagram → Reading
  panicked : List Datagram → Reading

unfoldable pub recv_loop : ℕ → List Round → List Datagram → Reading
unfolding packet_of
recv_loop err_count [] out = reading err_count out
recv_loop err_count (round ∷ rounds) out =
    let failed = recv_loop (err_count + 1) rounds out in
    let rest : Reading = elim round.received [
      | none ↦ (if ltb 1000 (err_count + 1) then panicked out else failed)
      | some d ↦ recv_loop 0 rounds (out ++ packet_of d ∷ [])
    ] in
    if round.is_closed then returned out else rest
