-- ===== src/Amf/Number.antt =====
-- The 29-bit numbers of AMF3 in src/rtmfp/amf.go, and the byte arrays that they prefix.
use go_rtmfp.Prelude.{
  ℕ, zero, suc, ◌+◌, ◌/◌, ◌%◌, Bool, true, false, Option, none, some, List, [], ◌∷◌, ◌++◌, leb, ltb,
  ◌==◌, if◌then◌else◌, ◌>>=◌, bit_and, add64, mul64, length,
}
use go_rtmfp.Vlu.{internal_encode_vlu}

-- `internal_write_amf3_u29` has the body of `internal_encode_vlu`.
unfoldable pub internal_write_amf3_u29 : ℕ → Bool → List ℕ
unfolding internal_encode_vlu
internal_write_amf3_u29 v more = internal_encode_vlu v more

-- `none` is the panic on a number of more than 29 bits.
unfoldable pub write_amf3_u29 : ℕ → Option (List ℕ)
unfolding internal_write_amf3_u29
write_amf3_u29 v =
    if leb v 0x1FFFFF
    then some (internal_write_amf3_u29 v false)
    else if leb v 0x1FFFFFFF
    then some (internal_write_amf3_u29 (v / 256) true ++ v % 256 ∷ [])
    else none

-- The byte `v` is read in round `i`: the number with it, and whether the loop breaks.
unfoldable pub u29_round : ℕ → ℕ → ℕ → ℕ
unfolding add64 mul64
u29_round i acc v =
    if ltb i 3 then add64 (mul64 acc 128) (bit_and v 0x7f) else add64 (mul64 acc 256) v

-- The loop with `left` rounds to go; round `i` is `4 - left`. At the end of the buffer `v` is 0.
unfoldable pub u29_loop : ℕ → ℕ → ℕ → List ℕ → ℕ × List ℕ
unfolding u29_round
u29_loop zero i acc r = (acc, r)
u29_loop (suc left) i acc [] = (u29_round i acc 0, [])
u29_loop (suc left) i acc (v ∷ r) =
    let rest = u29_loop left (i + 1) (u29_round i acc v) r in
    if bit_and v 128 == 0 then (u29_round i acc v, r) else rest

unfoldable pub read_amf3_u29 : List ℕ → ℕ × List ℕ
unfolding u29_loop
read_amf3_u29 r = u29_loop 4 0 0 r

-- `r.Read(bytes)` fills what the buffer has; the rest of the slice stays 0.
unfoldable pub read_bytes : ℕ → List ℕ → List ℕ × List ℕ
read_bytes zero r = ([], r)
read_bytes (suc n) [] = (0 ∷ (read_bytes n []).0, [])
read_bytes (suc n) (b ∷ r) = (b ∷ (read_bytes n r).0, (read_bytes n r).1)

unfoldable pub read_amf3_bytearray : List ℕ → List ℕ × List ℕ
unfolding read_amf3_u29 read_bytes
read_amf3_bytearray r = let (n, r') = read_amf3_u29 r in read_bytes (n / 2) r'

unfoldable pub write_amf3_bytearray : List ℕ → Option (List ℕ)
unfolding write_amf3_u29
write_amf3_bytearray v = write_amf3_u29 (add64 (mul64 (length v) 2) 1) >>= λ w. some (w ++ v)
