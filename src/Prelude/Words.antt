-- ===== src/Prelude/Words.antt =====
-- Go's `uint`, of 64 bits: a number below 2 ^ 64, with operations that wrap.
use Prim.Native.Nat.{ℕ, ◌+◌, ◌-◌, ◌*◌, ◌%◌, ◌^◌, ◌<◌, ◌≤◌}
use mathlib.Core.Path.{◌≡◌}
use native.Mathlib.Omega.{arith}
use go_rtmfp.Prelude.Tests.{ltb, if◌then◌else◌}

unfoldable pub add64 : ℕ → ℕ → ℕ
add64 a b = (a + b) % 2 ^ 64

unfoldable pub sub64 : ℕ → ℕ → ℕ
sub64 a b = (a + 2 ^ 64 - b) % 2 ^ 64

unfoldable pub mul64 : ℕ → ℕ → ℕ
mul64 a b = (a * b) % 2 ^ 64

abbrev pub IsU64 : ℕ → Type 0
IsU64 v = v < 2 ^ 64

abbrev pub IsByte : ℕ → Type 0
IsByte b = b < 256

-- Where the true result fits, a wrapping operation gives it.
pub add64_fits : (a b : ℕ) → a + b < 2 ^ 64 → add64 a b ≡ a + b
unfolding add64
add64_fits a b h = omega arith

pub sub64_fits : (a b : ℕ) → a < 2 ^ 64 → b ≤ a → sub64 a b ≡ a - b
unfolding sub64
sub64_fits a b h le = omega arith

pub mul64_fits : (a b : ℕ) → a * b < 2 ^ 64 → mul64 a b ≡ a * b
unfolding mul64
mul64_fits a b h = omega arith

-- `min_uint` and `max_uint` of src/rtmfp/base.go; `min` and `max` of src/rtmfp/range.go agree.
unfoldable pub min_uint : ℕ → ℕ → ℕ
min_uint a b = if ltb b a then b else a

unfoldable pub max_uint : ℕ → ℕ → ℕ
max_uint a b = if ltb a b then b else a
