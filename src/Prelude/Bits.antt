-- ===== src/Prelude/Bits.antt =====
-- Masks on one byte as arithmetic, by a table of the values of a byte.
use Prim.Native.Nat.{ℕ, zero, suc, ◌+◌, ◌*◌, ◌/◌, ◌%◌, ◌<◌, bit_and, bit_or}
use mathlib.Core.Path.{◌≡◌, refl}
use mathlib.Core.Bool.{Bool, true, ◌&&◌}
use native.Mathlib.Omega.{arith}
use go_rtmfp.Prelude.Tests.{◌==◌}

-- `f` and `g` agree on the numbers below the bound.
agree : (ℕ → ℕ) → (ℕ → ℕ) → ℕ → Bool
agree f g zero = true
agree f g (suc n) = f n == g n && agree f g n

agree_sound : (f g : ℕ → ℕ) (n x : ℕ) → agree f g n ≡ true → x < n → f x ≡ g x
unfolding agree
agree_sound f g zero x e h = absurd (omega arith)
agree_sound f g (suc n) x e h = ground (arith, agree_sound f g n x)

pub bit_and-0x7f : (b : ℕ) → b < 256 → bit_and b 0x7f ≡ b % 128
unfolding agree
bit_and-0x7f b h = agree_sound (λ x. bit_and x 0x7f) (λ x. x % 128) 256 b refl h

pub bit_and-0x80 : (b : ℕ) → b < 256 → bit_and b 0x80 ≡ b / 128 * 128
unfolding agree
bit_and-0x80 b h = agree_sound (λ x. bit_and x 0x80) (λ x. x / 128 * 128) 256 b refl h

pub bit_or-0x80 : (b : ℕ) → b < 128 → bit_or b 0x80 ≡ b + 128
unfolding agree
bit_or-0x80 b h = agree_sound (λ x. bit_or x 0x80) (λ x. x + 128) 128 b refl h
