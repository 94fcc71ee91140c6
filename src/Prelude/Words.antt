-- ===== src/Prelude/Words.antt =====
-- Machine words as numbers: `uint` and `int` bit patterns of 32 bits, `uint64`.
use Prim.Native.Nat.{ℕ, ◌+◌, ◌-◌, ◌%◌, ◌^◌, ◌<◌}
use mathlib.Core.Path.{◌≡◌}
use mathlib.Core.Bool.{Bool}
use native.Mathlib.Omega.{arith}
use tp3_so.Prelude.Tests.{ltb}

abbrev pub u32 : ℕ → ℕ
u32 n = n % 2 ^ 32

abbrev pub u64 : ℕ → ℕ
u64 n = n % 2 ^ 64

-- a - b on `uint`, for words a and b
abbrev pub sub32 : ℕ → ℕ → ℕ
sub32 a b = (a + 2 ^ 32 - b) % 2 ^ 32

-- `a < b` on `int`, for two 32-bit patterns: shifting the sign bit orders them.
abbrev pub lt_int : ℕ → ℕ → Bool
lt_int a b = ltb ((a + 2 ^ 31) % 2 ^ 32) ((b + 2 ^ 31) % 2 ^ 32)

-- Below the sign bit the order of `int` is the order of the patterns.
pub lt_int-eq-ltb : (a b : ℕ) → a < 2 ^ 31 → b < 2 ^ 31 → lt_int a b ≡ ltb a b
lt_int-eq-ltb a b ha hb = ground arith

-- -1 as an `int`
abbrev pub minus_one : ℕ
minus_one = 2 ^ 32 - 1
