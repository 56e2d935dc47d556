-- ===== src/Prelude/Xor.antt =====
-- Exclusive or at variables: a law for the lowest digit, the bound of a width, and that two masks cancel.
use Prim.Native.Nat.{
  ℕ, zero, suc, ◌+◌, ◌*◌, ◌/◌, ◌%◌, ◌^◌, ◌≤◌, ◌<◌, bit_xor, digits, differ, bit_xor-bitwise,
}
use mathlib.Core.Path.{◌≡◌, refl}
use native.Mathlib.Omega.{arith}

abbrev xor_digits : ℕ → ℕ → ℕ → ℕ
xor_digits n a b = digits (λ x. x) differ n a b

xor_digits_fuel : (n m a b : ℕ) → a ≤ n → a ≤ m → xor_digits n a b ≡ xor_digits m a b
xor_digits_fuel zero zero a b p q = refl
xor_digits_fuel zero (suc m) zero b p q = refl
xor_digits_fuel zero (suc m) (suc a) b p q = absurd (omega arith)
xor_digits_fuel (suc n) zero zero b p q = refl
xor_digits_fuel (suc n) zero (suc a) b p q = absurd (omega arith)
xor_digits_fuel (suc n) (suc m) zero b p q = refl
xor_digits_fuel (suc n) (suc m) (suc a) b p q =
    omega (arith, xor_digits_fuel n m (suc a / 2) (b / 2) (omega arith) (omega arith))

differ_sum : (x y : ℕ) → x < 2 → y < 2 → differ x y ≡ (x + y) % 2
differ_sum zero y h k = omega arith
differ_sum (suc zero) zero h k = refl
differ_sum (suc zero) (suc zero) h k = refl
differ_sum (suc zero) (suc (suc y)) h k = absurd (omega arith)
differ_sum (suc (suc x)) y h k = absurd (omega arith)

zero-bit_xor : (b : ℕ) → bit_xor 0 b ≡ b
zero-bit_xor b = bit_xor-bitwise 0 b

bit_xor_step : (a b : ℕ) → bit_xor a b ≡ bit_xor (a / 2) (b / 2) * 2 + (a + b) % 2
bit_xor_step zero b = omega (arith, zero-bit_xor b, zero-bit_xor (b / 2))
bit_xor_step (suc a) b = omega (
  arith,
  bit_xor-bitwise (suc a) b,
  bit_xor-bitwise (suc a / 2) (b / 2),
  xor_digits_fuel a (suc a / 2) (suc a / 2) (b / 2) (omega arith) (omega arith),
  differ_sum (suc a % 2) (b % 2) (omega arith) (omega arith),
)

bit_xor-half : (a b : ℕ) → bit_xor a b / 2 ≡ bit_xor (a / 2) (b / 2)
bit_xor-half a b = omega (arith, bit_xor_step a b)

bit_xor-digit : (a b : ℕ) → bit_xor a b % 2 ≡ (a + b) % 2
bit_xor-digit a b = omega (arith, bit_xor_step a b)

pub bit_xor-bound : (w a b : ℕ) → a < 2 ^ w → b < 2 ^ w → bit_xor a b < 2 ^ w
bit_xor-bound zero zero zero h k = omega arith
bit_xor-bound zero zero (suc b) h k = absurd (omega arith)
bit_xor-bound zero (suc a) b h k = absurd (omega arith)
bit_xor-bound (suc w) a b h k =
    omega (arith, bit_xor_step a b, bit_xor-bound w (a / 2) (b / 2) (omega arith) (omega arith))

masks_cancel_fuel :
    (n v a b : ℕ) → v ≤ n → a ≤ n → b ≤ n → bit_xor (bit_xor (bit_xor (bit_xor v a) b) a) b ≡ v
masks_cancel_fuel zero zero zero zero h i j = refl
masks_cancel_fuel zero zero zero (suc b) h i j = absurd (omega arith)
masks_cancel_fuel zero zero (suc a) b h i j = absurd (omega arith)
masks_cancel_fuel zero (suc v) a b h i j = absurd (omega arith)
masks_cancel_fuel (suc n) v a b h i j =
    let x1 = bit_xor v a in
    let x2 = bit_xor x1 b in
    let x3 = bit_xor x2 a in
    let rest =
      masks_cancel_fuel n (v / 2) (a / 2) (b / 2) (omega arith) (omega arith) (omega arith) in
    let half : bit_xor x3 b / 2 ≡ v / 2 =
      rw (bit_xor-half x3 b, bit_xor-half x2 a, bit_xor-half x1 b, bit_xor-half v a) rest in
    omega
      (arith, half, bit_xor-digit x3 b, bit_xor-digit x2 a, bit_xor-digit x1 b, bit_xor-digit v a)

-- Two masks that are put on twice cancel.
pub masks_cancel : (v a b : ℕ) → bit_xor (bit_xor (bit_xor (bit_xor v a) b) a) b ≡ v
masks_cancel v a b = masks_cancel_fuel (v + a + b) v a b (omega arith) (omega arith) (omega arith)
