-- ===== src/Amf/NumberTrip.antt =====
-- Reading back what `write_amf3_u29` of src/rtmfp/amf.go writes.
use go_rtmfp.Prelude.{
  ◌⊎◌, inl, inr, ℕ, suc, ◌+◌, ◌*◌, ◌/◌, ◌%◌, ◌^◌, ◌≤◌, ◌<◌, ◌≡◌, ◌≢◌, sym, ap, ◌∙◌, Bool, true,
  false, some, List, [], ◌∷◌, ◌++◌, arith, add64, mul64, append_assoc, dec_lt, All, IsByte,
}
use go_rtmfp.Prelude.Bits.{bit_and-0x7f, bit_and-0x80, bit_or-0x80}
use go_rtmfp.Prelude.Order.{lt_wf}
use go_rtmfp.Vlu.{group_byte, encode_groups}
use go_rtmfp.Vlu.RoundTrip.{encode-small, encode-large}
use go_rtmfp.Amf.Number.{internal_write_amf3_u29, write_amf3_u29, u29_loop, read_amf3_u29}
use mathlib.Core.WellFounded.{Acc}

-- The groups of a number by its size, lowest last.
groups_one :
    (v : ℕ) (more : Bool) (w : Acc ◌<◌ v)
    → v < 128
    → encode_groups v more w ≡ group_byte v more ∷ []
groups_one = encode-small

groups_two :
    (v : ℕ) (more : Bool) (w : Acc ◌<◌ v)
    → 128 ≤ v
    → v < 16384
    → encode_groups v more w ≡ group_byte (v / 128) true ∷ group_byte (v % 128) more ∷ []
groups_two v more (Acc.intro _ smaller) h k =
    encode-large v more smaller h
    ∙ ap (λ l. l ++ group_byte (v % 128) more ∷ []) (encode-small (v / 128) true _ (omega arith))

groups_three :
    (v : ℕ) (more : Bool) (w : Acc ◌<◌ v)
    → 16384 ≤ v
    → v < 2097152
    → encode_groups v more w
      ≡ group_byte (v / 128 / 128) true
        ∷ group_byte (v / 128 % 128) true
        ∷ group_byte (v % 128) more
        ∷ []
groups_three v more (Acc.intro _ smaller) h k =
    encode-large v more smaller (omega arith)
    ∙ ap (λ l. l ++ group_byte (v % 128) more ∷ [])
        (groups_two (v / 128) true _ (omega arith) (omega arith))

-- One round of the loop on a group, while the round is not the last.
round_more :
    (left i acc w : ℕ) (r : List ℕ)
    → w < 128
    → i < 3
    → acc * 128 + w < 2 ^ 64
    → u29_loop (suc left) i acc (group_byte w true ∷ r) ≡ u29_loop left (i + 1) (acc * 128 + w) r
unfolding u29_loop group_byte add64 mul64
round_more left i acc w r h k fits =
    ground (arith, bit_or-0x80 (w % 256), bit_and-0x7f (w + 128), bit_and-0x80 (w + 128))

round_last :
    (left i acc w : ℕ) (r : List ℕ)
    → w < 128
    → i < 3
    → acc * 128 + w < 2 ^ 64
    → u29_loop (suc left) i acc (group_byte w false ∷ r) ≡ (acc * 128 + w, r)
unfolding u29_loop group_byte add64 mul64
round_last left i acc w r h k fits = ground (arith, bit_and-0x7f w, bit_and-0x80 w)

-- The fourth byte counts with all of its bits.
round_fourth :
    (acc b : ℕ) (r : List ℕ)
    → acc * 256 + b < 2 ^ 64
    → u29_loop 1 3 acc (b ∷ r) ≡ (acc * 256 + b, r)
unfolding u29_loop add64 mul64
round_fourth acc b r fits = ground arith

-- The low part, of at most 21 bits, as one to three groups.
small_trip :
    (v : ℕ) (w : Acc ◌<◌ v) (r : List ℕ)
    → v ≤ 0x1FFFFF
    → u29_loop 4 0 0 (encode_groups v false w ++ r) ≡ (v, r)
small_trip v w r h = elim (dec_lt v 128) [
  | yes one ↦
      rw (groups_one v false w one) (
        round_last 3 0 0 v r one (omega arith) (omega arith) ∙ ap (λ (n : ℕ). (n, r)) (omega arith))
  | no more ↦ elim (dec_lt v 16384) [
    | yes two ↦ rw (groups_two v false w (omega arith) two) (
        round_more 3 0 0 (v / 128) _ (omega arith) (omega arith) (omega arith)
        ∙ round_last 2 (0 + 1) (0 * 128 + v / 128) (v % 128) r (omega arith) (omega arith)
            (omega arith)
        ∙ ap (λ (n : ℕ). (n, r)) (omega arith))
    | no three ↦ rw (groups_three v false w (omega arith) (omega arith)) (
        round_more 3 0 0 (v / 128 / 128) _ (omega arith) (omega arith) (omega arith)
        ∙ round_more 2 (0 + 1) (0 * 128 + v / 128 / 128) (v / 128 % 128) _ (omega arith)
            (omega arith) (omega arith)
        ∙ round_last 1 (0 + 1 + 1) _ (v % 128) r (omega arith) (omega arith) (omega arith)
        ∙ ap (λ (n : ℕ). (n, r)) (omega arith))
  ]
]

write_small : (v : ℕ) → v ≤ 0x1FFFFF → write_amf3_u29 v ≡ some (internal_write_amf3_u29 v false)
unfolding write_amf3_u29
write_small v h = ground arith

write_large :
    (v : ℕ)
    → 0x1FFFFF < v
    → v ≤ 0x1FFFFFFF
    → write_amf3_u29 v ≡ some (internal_write_amf3_u29 (v / 256) true ++ v % 256 ∷ [])
unfolding write_amf3_u29
write_large v h k = ground arith

-- A number of at most 21 bits is read back, and what follows it is left.
pub read-write_small :
    (v : ℕ) (r : List ℕ)
    → v ≤ 0x1FFFFF
    → (w : List ℕ) × (write_amf3_u29 v ≡ some w) × (read_amf3_u29 (w ++ r) ≡ (v, r))
unfolding read_amf3_u29 internal_write_amf3_u29
read-write_small v r h =
    (internal_write_amf3_u29 v false, write_small v h, small_trip v (lt_wf.apply v) r h)

-- A number from 2 ^ 22 to 2 ^ 29 - 1 is read back too, from four bytes.
pub read-write_large :
    (v : ℕ) (r : List ℕ)
    → 0x400000 ≤ v
    → v ≤ 0x1FFFFFFF
    → (w : List ℕ) × (write_amf3_u29 v ≡ some w) × (read_amf3_u29 (w ++ r) ≡ (v, r))
unfolding read_amf3_u29 internal_write_amf3_u29
read-write_large v r h k =
    let u = v / 256 in
    (
      internal_write_amf3_u29 u true ++ v % 256 ∷ [],
      write_large v (omega arith) k,
      rw (append_assoc, groups_three u true (lt_wf.apply u) (omega arith) (omega arith))
          (round_more 3 0 0 (u / 128 / 128) _ (omega arith) (omega arith) (omega arith)
            ∙ round_more 2 (0 + 1) (0 * 128 + u / 128 / 128) (u / 128 % 128) _ (omega arith)
                (omega arith) (omega arith)
            ∙ round_more 1 (0 + 1 + 1) _ (u % 128) _ (omega arith) (omega arith) (omega arith)
            ∙ round_fourth _ (v % 256) r (omega arith)
            ∙ ap (λ (n : ℕ). (n, r)) (omega arith)),
    )

-- A last byte in the third round is read as seven bits.
third_byte :
    (acc b : ℕ) (r : List ℕ)
    → All IsByte r
    → b < 256
    → 0x2000 ≤ acc
    → acc < 0x4000
    → (u29_loop 2 2 acc (b ∷ r)).0 ≢ acc * 256 + b
unfolding u29_loop add64 mul64
third_byte acc b [] hr h k l = ground (arith, bit_and-0x7f b, bit_and-0x80 b)
third_byte acc b (x ∷ r) hr h k l = ground (arith, bit_and-0x7f b, bit_and-0x80 b)

-- A number of at most 21 bits, and one from 2 ^ 22 to 2 ^ 29 - 1, is read back from its U29 encoding, and what follows
-- the encoding is left in the buffer.
pub read-write_u29 :
    (v : ℕ) (r : List ℕ)
    → (v ≤ 0x1FFFFF) ⊎ ((0x400000 ≤ v) × (v ≤ 0x1FFFFFFF))
    → (w : List ℕ) × (write_amf3_u29 v ≡ some w) × (read_amf3_u29 (w ++ r) ≡ (v, r))
read-write_u29 v r (inl h) = read-write_small v r h
read-write_u29 v r (inr (h, k)) = read-write_large v r h k

-- The numbers from 2 ^ 21 to 2 ^ 22 - 1 are written in three bytes, the last one whole, and are never
-- read back, whatever bytes follow.
pub read-write_gap :
    (v : ℕ) (r : List ℕ)
    → All IsByte r
    → 0x1FFFFF < v
    → v < 0x400000
    → (w : List ℕ) × (write_amf3_u29 v ≡ some w) × ((read_amf3_u29 (w ++ r)).0 ≢ v)
unfolding read_amf3_u29 internal_write_amf3_u29
read-write_gap v r hr h k =
    let u = v / 256 in
    let rounds : u29_loop 4 0 0
          (group_byte (u / 128) true ∷ group_byte (u % 128) true ∷ v % 256 ∷ r)
        ≡ u29_loop 2 2 u (v % 256 ∷ r) =
      round_more 3 0 0 (u / 128) (group_byte (u % 128) true ∷ v % 256 ∷ r) (omega arith)
        (omega arith) (omega arith)
      ∙ round_more 2 (0 + 1) (0 * 128 + u / 128) (u % 128) (v % 256 ∷ r) (omega arith) (omega arith)
          (omega arith)
      ∙ ap (λ (n : ℕ). u29_loop 2 2 n (v % 256 ∷ r)) (omega arith) in
    (
      internal_write_amf3_u29 u true ++ v % 256 ∷ [],
      write_large v h (omega arith),
      rw (append_assoc, groups_two u true (lt_wf.apply u) (omega arith) (omega arith))
          (λ e.
            third_byte u (v % 256) r hr (omega arith) (omega arith) (omega arith)
              (ap (λ (x : ℕ × List ℕ). x.0) (sym rounds) ∙ e ∙ omega arith)),
    )
