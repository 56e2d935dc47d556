-- ===== src/Buffer.antt =====
-- Go's `bytes.Buffer` and `encoding/binary`, as the decoders of src/rtmfp use them. A buffer is the
-- list of its unread bytes. `r.Bytes()[:n]` may reach beyond its length, up to its capacity: `beyond`
-- is what lies there. `none` is a panic.
use go_rtmfp.Prelude.{
  ℕ, ◌+◌, ◌*◌, ◌/◌, ◌%◌, ◌^◌, List, [], ◌∷◌, ◌++◌, Option, none, some, leb, ltb, if◌then◌else◌,
  length, take, drop,
}

-- `binary.Read` of 1, 2 and 4 bytes. With too few left it takes what there is and the variable stays 0.
unfoldable pub read_u8 : List ℕ → ℕ × List ℕ
read_u8 [] = (0, [])
read_u8 (b ∷ r) = (b, r)

unfoldable pub read_u16 : List ℕ → ℕ × List ℕ
read_u16 (a ∷ b ∷ r) = (a * 256 + b, r)
read_u16 r = (0, [])

unfoldable pub read_u32 : List ℕ → ℕ × List ℕ
read_u32 (a ∷ b ∷ c ∷ d ∷ r) = (((a * 256 + b) * 256 + c) * 256 + d, r)
read_u32 r = (0, [])

-- `binary.Write` of a `uint16` and of a `uint32`.
unfoldable pub write_u16 : ℕ → List ℕ
write_u16 v = v / 256 % 256 ∷ v % 256 ∷ []

unfoldable pub write_u32 : ℕ → List ℕ
write_u32 v = v / 16777216 % 256 ∷ v / 65536 % 256 ∷ v / 256 % 256 ∷ v % 256 ∷ []

-- `r.Bytes()[:n]`
unfoldable pub slice : List ℕ → List ℕ → ℕ → Option (List ℕ)
slice beyond r n = if leb n (length r + length beyond) then some (take n (r ++ beyond)) else none

-- `r.Next(int(n))`, for an `n` that `slice` accepted: no more than what is unread.
unfoldable pub next : ℕ → List ℕ → List ℕ
next n r = drop n r

-- The same where `n` may be negative as an `int`, which panics.
unfoldable pub next_int : ℕ → List ℕ → Option (List ℕ)
unfolding next
next_int n r = if ltb n (2 ^ 63) then some (next n r) else none

-- A field of a known length and what follows it.
unfoldable pub take_field : List ℕ → ℕ → List ℕ → Option (List ℕ × List ℕ)
unfolding slice next
take_field beyond n r = elim (slice beyond r n) [
  | none ↦ none
  | some field ↦ some (field, next n r)
]
