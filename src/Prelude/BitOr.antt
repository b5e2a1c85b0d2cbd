-- ===== src/Prelude/BitOr.antt =====
-- `bit_or` with a few low bits, and `bit_and` with a mask that clears them.
use Prim.Native.Nat.{
  ℕ, zero, suc, ◌+◌, ◌-◌, ◌*◌, ◌/◌, ◌%◌, ◌^◌, ◌≤◌, ◌<◌, max, bit_and, bit_or, digits,
  bit_or-bitwise,
}
use mathlib.Core.Path.{◌≡◌, refl, ap}
use native.Mathlib.Omega.{arith}
use asyncplusplus.Prelude.Bits.{bit_and_digit, bit_and_mask}

abbrev or_bits : ℕ → ℕ → ℕ → ℕ
or_bits n a b = digits (λ b. b) max n a b

or_bits_enough : (n m a b : ℕ) → a ≤ n → a ≤ m → or_bits n a b ≡ or_bits m a b
or_bits_enough zero zero a b p q = refl
or_bits_enough zero (suc m) zero b p q = refl
or_bits_enough zero (suc m) (suc a) b p q = absurd (omega arith)
or_bits_enough (suc n) zero zero b p q = refl
or_bits_enough (suc n) zero (suc a) b p q = absurd (omega arith)
or_bits_enough (suc n) (suc m) zero b p q = refl
or_bits_enough (suc n) (suc m) (suc a) b p q =
    omega (arith, or_bits_enough n m (suc a / 2) (b / 2) (omega arith) (omega arith))

bit_or_digit : (a b : ℕ) → bit_or a b ≡ bit_or (a / 2) (b / 2) * 2 + max (a % 2) (b % 2)
bit_or_digit zero b = omega (arith, bit_or-bitwise 0 b, bit_or-bitwise 0 (b / 2))
bit_or_digit (suc a) b = omega (
  arith,
  bit_or-bitwise (suc a) b,
  bit_or-bitwise (suc a / 2) (b / 2),
  or_bits_enough a (suc a / 2) (suc a / 2) (b / 2) (omega arith) (omega arith),
)

bit_or-zero_below : (n a : ℕ) → a ≤ n → bit_or a 0 ≡ a
bit_or-zero_below n zero h = omega (arith, bit_or-bitwise 0 0)
bit_or-zero_below zero (suc a) h = absurd (omega arith)
bit_or-zero_below (suc n) (suc a) h =
    omega (arith, bit_or_digit (suc a) 0, bit_or-zero_below n (suc a / 2) (omega arith))

-- Two flags beside a multiple of 4.
pub bit_or_flags : (a b : ℕ) → a % 4 ≡ 0 → b < 4 → bit_or a b ≡ a + b
bit_or_flags a b p q = omega (
  arith,
  bit_or_digit a b,
  bit_or_digit (a / 2) (b / 2),
  ap (bit_or (a / 2 / 2)) {x = b / 2 / 2} {y = 0} (omega arith),
  bit_or-zero_below (a / 2 / 2) (a / 2 / 2) (omega arith),
)

pub bit_and_flags : (a : ℕ) → bit_and a 3 ≡ a % 4
bit_and_flags a = bit_and_mask 2 a

-- The 64-bit complement of 3 clears the flags.
pub bit_and_clear : (a : ℕ) → a < 2 ^ 64 → bit_and a (2 ^ 64 - 1 - 3) ≡ a - a % 4
bit_and_clear a h = omega (
  arith,
  bit_and_digit a (2 ^ 64 - 1 - 3),
  bit_and_digit (a / 2) ((2 ^ 64 - 1 - 3) / 2),
  bit_and_mask 62 (a / 2 / 2),
)
