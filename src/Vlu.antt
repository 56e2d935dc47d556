-- ===== src/Vlu.antt =====
-- The variable-length unsigned integers of src/rtmfp/base.go.
-- A `bytes.Buffer` is the list of its unread bytes, and what a function writes is the list that
-- it returns. `binary.Read` at the end of the buffer leaves its variable at 0.
pub mod RoundTrip
use go_rtmfp.Prelude.{
  ℕ, ◌+◌, ◌/◌, ◌%◌, ◌<◌, ◌≤◌, Bool, true, false, List, [], ◌∷◌, ◌++◌, arith, bit_and, bit_or, dite,
  dec_le, if◌then◌else◌, ◌==◌, add64, mul64, length,
}
use go_rtmfp.Prelude.Order.{lt_wf}
use mathlib.Core.WellFounded.{Acc}

-- `uint8(v)`, with the top bit set where more groups follow.
unfoldable pub group_byte : ℕ → Bool → ℕ
group_byte v more = if more then bit_or (v % 256) 128 else v % 256

pub div_lt : (v : ℕ) → 128 ≤ v → v / 128 < v
div_lt v h = omega arith

pub mod_lt : (v : ℕ) → 128 ≤ v → v % 128 < v
mod_lt v h = omega arith

-- `internal_encode_vlu`: both calls are on a smaller number.
unfoldable pub encode_groups : (v : ℕ) → Bool → Acc ◌<◌ v → List ℕ
encode_groups v more (Acc.intro _ smaller) =
    dite (dec_le 128 v)
      (λ h.
        encode_groups (v / 128) true (smaller (v / 128) (div_lt v h))
        ++ encode_groups (v % 128) more (smaller (v % 128) (mod_lt v h)))
      (λ _. group_byte v more ∷ [])

unfoldable pub internal_encode_vlu : ℕ → Bool → List ℕ
unfolding encode_groups lt_wf dec_le group_byte
internal_encode_vlu v more = encode_groups v more (lt_wf.apply v)

unfoldable pub encode_vlu : ℕ → List ℕ
unfolding internal_encode_vlu
encode_vlu v = internal_encode_vlu v false

unfoldable pub encode_vlu_prefix_bytes : List ℕ → List ℕ
unfolding encode_vlu
encode_vlu_prefix_bytes buf = encode_vlu (length buf) ++ buf

-- The loop of `decode_vlu`. At the end of the buffer a byte reads as 0, which ends the loop.
unfoldable pub decode_groups : ℕ → List ℕ → ℕ × List ℕ
decode_groups acc [] = (add64 (mul64 acc 128) 0, [])
decode_groups acc (b ∷ r) =
    let acc' = add64 (mul64 acc 128) (bit_and b 0x7f) in
    let rest = decode_groups acc' r in if bit_and b 128 == 0 then (acc', r) else rest

unfoldable pub decode_vlu : List ℕ → ℕ × List ℕ
unfolding decode_groups add64 mul64
decode_vlu r = decode_groups 0 r
