-- ===== src/Tests/Sockets.antt =====
-- The loop `recv` of src/rtmfp/socket_bin.go on a few datagrams.
use go_rtmfp.Prelude.{ℕ, ◌≡◌, List, [], ◌∷◌, ◌++◌, replicate, arith}
use go_rtmfp.Socket.{Datagram, reading, panicked, recv_loop}
use go_rtmfp.Socket.Bursts.{failure, rounds_of, packets_of, recv_loop-bursts}

abbrev datagram : ℕ → Datagram
datagram b = record { data_bytes = b ∷ []; addr = 7 ∷ [] }

abbrev two : List (ℕ × Datagram)
two = (3, datagram 1) ∷ (0, datagram 2) ∷ []

recv_loop-bursts_example :
    (recv_loop 0 (rounds_of two ++ replicate 5 failure) [] ≡ reading 5 (packets_of two))
    × (recv_loop 0 (rounds_of two ++ (replicate 1001 failure ++ [])) [] ≡ panicked (packets_of two))
recv_loop-bursts_example =
    recv_loop-bursts two 5 [] ((omega arith, (omega arith, tt))) (omega arith)
