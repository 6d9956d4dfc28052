-- ===== src/Prelude/Int32.antt =====
-- Go's `int32` as its bit pattern: a number below 2 ^ 32, where a pattern from 2 ^ 31 on stands
-- for a negative integer. Addition and multiplication wrap; the order is that of the integers.
use Prim.Native.Nat.{ℕ, ◌+◌, ◌-◌, ◌*◌, ◌%◌, ◌<◌}
use mathlib.Core.Path.{◌≡◌}
use mathlib.Core.Bool.{Bool, true}
use native.Mathlib.Omega.{arith}
use orthrus.Prelude.Tests.{ltb, leb}

abbrev pub modulus : ℕ
modulus = 4294967296

abbrev pub half : ℕ
half = 2147483648

abbrev pub max_int32 : ℕ
max_int32 = 2147483647

-- The pattern of -1.
abbrev pub minus_one : ℕ
minus_one = 4294967295

unfoldable pub int32 : ℕ → ℕ
int32 n = n % modulus

unfoldable pub add32 : ℕ → ℕ → ℕ
add32 a b = (a + b) % modulus

unfoldable pub sub32 : ℕ → ℕ → ℕ
sub32 a b = (a + modulus - b) % modulus

unfoldable pub mul32 : ℕ → ℕ → ℕ
mul32 a b = (a * b) % modulus

unfoldable pub lt32 : ℕ → ℕ → Bool
lt32 a b = ltb ((a + half) % modulus) ((b + half) % modulus)

unfoldable pub le32 : ℕ → ℕ → Bool
le32 a b = leb ((a + half) % modulus) ((b + half) % modulus)

pub int32_small : (n : ℕ) → n < modulus → int32 n ≡ n
unfolding int32
int32_small n h = omega arith

pub add32_small : (a b : ℕ) → a + b < modulus → add32 a b ≡ a + b
unfolding add32
add32_small a b h = omega arith

pub mul32_small : (a b : ℕ) → a * b < modulus → mul32 a b ≡ a * b
unfolding mul32
mul32_small a b h = omega arith

pub lt32_small : (a b : ℕ) → a < half → b < half → lt32 a b ≡ ltb a b
unfolding lt32
lt32_small a b p q = ground arith

pub le32_small : (a b : ℕ) → a < half → b < half → le32 a b ≡ leb a b
unfolding le32
le32_small a b p q = ground arith

pub lt32-minus_one : (a : ℕ) → a < half → lt32 minus_one a ≡ true
unfolding lt32
lt32-minus_one a p = ground arith
