-- ===== src/Vlu/RoundTrip.antt =====
-- `decode_vlu` reads back what `encode_vlu` writes.
use go_rtmfp.Prelude.{
  ℕ, ◌+◌, ◌*◌, ◌/◌, ◌%◌, ◌^◌, ◌<◌, ◌≤◌, ◌≡◌, ◌∙◌, Bool, true, false, List, [], ◌∷◌, ◌++◌,
  append_assoc, arith, add64, mul64, IsU64, dec_le, ap,
}
use go_rtmfp.Prelude.Bits.{bit_and-0x7f, bit_and-0x80, bit_or-0x80}
use go_rtmfp.Prelude.Order.{lt_wf}
use go_rtmfp.Vlu.{
  group_byte, div_lt, mod_lt, encode_groups, internal_encode_vlu, encode_vlu, decode_groups,
  decode_vlu,
}
use mathlib.Core.WellFounded.{Acc}
use native.Mathlib.Bridge.{le_prop}
use mathlib.Core.Logic.{dif_pos, dif_neg}

-- One round of the decoding loop, on a byte of each kind.
decode-more :
    (acc w : ℕ) (r : List ℕ)
    → w < 128
    → acc * 128 + w < 2 ^ 64
    → decode_groups acc (group_byte w true ∷ r) ≡ decode_groups (acc * 128 + w) r
unfolding decode_groups group_byte add64 mul64
decode-more acc w r h fits =
    ground (arith, bit_or-0x80 (w % 256), bit_and-0x7f (w + 128), bit_and-0x80 (w + 128))

decode-last :
    (acc w : ℕ) (r : List ℕ)
    → w < 128
    → acc * 128 + w < 2 ^ 64
    → decode_groups acc (group_byte w false ∷ r) ≡ (acc * 128 + w, r)
unfolding decode_groups group_byte add64 mul64
decode-last acc w r h fits = ground (arith, bit_and-0x7f w, bit_and-0x80 w)

-- A number below 128 is one group.
pub encode-small :
    (v : ℕ) (more : Bool) (w : Acc ◌<◌ v)
    → v < 128
    → encode_groups v more w ≡ group_byte v more ∷ []
unfolding encode_groups
encode-small v more (Acc.intro _ smaller) h =
    let large : ¬ (128 ≤ v) = omega arith in rw (dif_neg _ large)

-- Any other is the groups of its upper part, all marked, and a last group.
pub encode-large :
    (v : ℕ) (more : Bool) (smaller : (y : ℕ) → y < v → Acc ◌<◌ y) (p : 128 ≤ v)
    → encode_groups v more (Acc.intro v smaller)
      ≡ encode_groups (v / 128) true (smaller (v / 128) (div_lt v p))
        ++ group_byte (v % 128) more ∷ []
encode-large v more smaller p =
    unfold encode_groups in
    rw (dif_pos _ le_prop p) (
      ap (◌++◌ (encode_groups (v / 128) true (smaller (v / 128) (div_lt v p))))
        (encode-small (v % 128) more (smaller (v % 128) (mod_lt v p)) (omega arith)))

-- The groups of `v`, all marked, take the loop from 0 to `v`.
decode-encode_more :
    (v : ℕ) (w : Acc ◌<◌ v) (r : List ℕ)
    → IsU64 v
    → decode_groups 0 (encode_groups v true w ++ r) ≡ decode_groups v r
decode-encode_more v (Acc.intro _ smaller) r h = elim (dec_le 128 v) [
  | yes p ↦
      rw (encode-large v true smaller p, append_assoc)
        (decode-encode_more (v / 128) (smaller (v / 128) (div_lt v p)) _ (omega arith)
          ∙ decode-more (v / 128) (v % 128) r (omega arith) (omega arith)
          ∙ ap (λ (n : ℕ). decode_groups n r) (omega arith))
  | no p ↦ rw (encode-small v true (Acc.intro v smaller) (omega arith)) (
      decode-more 0 v r (omega arith) (omega arith)
      ∙ ap (λ (n : ℕ). decode_groups n r) (omega arith))
]

decode-encode_last :
    (v : ℕ) (w : Acc ◌<◌ v) (r : List ℕ)
    → IsU64 v
    → decode_groups 0 (encode_groups v false w ++ r) ≡ (v, r)
decode-encode_last v (Acc.intro _ smaller) r h = elim (dec_le 128 v) [
  | yes p ↦
      rw (encode-large v false smaller p, append_assoc)
        (decode-encode_more (v / 128) (smaller (v / 128) (div_lt v p)) _ (omega arith)
          ∙ decode-last (v / 128) (v % 128) r (omega arith) (omega arith)
          ∙ ap (λ (n : ℕ). (n, r)) (omega arith))
  | no p ↦
      rw (encode-small v false (Acc.intro v smaller) (omega arith))
        (decode-last 0 v r (omega arith) (omega arith) ∙ ap (λ (n : ℕ). (n, r)) (omega arith))
]

-- Whatever follows the encoding of a 64-bit number, `decode_vlu` reads the number back and leaves
-- exactly what follows.
pub decode_vlu-encode_vlu : (v : ℕ) (r : List ℕ) → IsU64 v → decode_vlu (encode_vlu v ++ r) ≡ (v, r)
unfolding decode_vlu encode_vlu internal_encode_vlu
decode_vlu-encode_vlu v r h = decode-encode_last v (lt_wf.apply v) r h
