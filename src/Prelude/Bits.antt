-- ===== src/Prelude/Bits.antt =====
-- `bit_and` with a mask of ones is a remainder.
use Prim.Native.Nat.{
  ℕ, zero, suc, ◌+◌, ◌-◌, ◌*◌, ◌/◌, ◌%◌, ◌^◌, ◌≤◌, ◌<◌, min, bit_and, digits, bit_and-bitwise,
}
use mathlib.Core.Path.{◌≡◌, refl, ap, ◌∙◌}
use native.Mathlib.Omega.{arith}
use native.Mathlib.Nat.{pow-suc}

-- The bits of `a & b`, at most `n` of them: what the native operation stands for.
abbrev and_bits : ℕ → ℕ → ℕ → ℕ
and_bits n a b = digits (λ b. zero) min n a b

-- The number of digits asked for does not matter, once it covers `a`.
and_bits_enough : (n m a b : ℕ) → a ≤ n → a ≤ m → and_bits n a b ≡ and_bits m a b
and_bits_enough zero zero a b p q = refl
and_bits_enough zero (suc m) zero b p q = refl
and_bits_enough zero (suc m) (suc a) b p q = absurd (omega arith)
and_bits_enough (suc n) zero zero b p q = refl
and_bits_enough (suc n) zero (suc a) b p q = absurd (omega arith)
and_bits_enough (suc n) (suc m) zero b p q = refl
and_bits_enough (suc n) (suc m) (suc a) b p q =
    omega (arith, and_bits_enough n m (suc a / 2) (b / 2) (omega arith) (omega arith))

pub bit_and_digit : (a b : ℕ) → bit_and a b ≡ bit_and (a / 2) (b / 2) * 2 + min (a % 2) (b % 2)
bit_and_digit zero b = omega (arith, bit_and-bitwise 0 b, bit_and-bitwise 0 (b / 2))
bit_and_digit (suc a) b = omega (
  arith,
  bit_and-bitwise (suc a) b,
  bit_and-bitwise (suc a / 2) (b / 2),
  and_bits_enough a (suc a / 2) (suc a / 2) (b / 2) (omega arith) (omega arith),
)

bit_and-zero_below : (n a : ℕ) → a ≤ n → bit_and a 0 ≡ 0
bit_and-zero_below n zero h = refl
bit_and-zero_below zero (suc a) h = absurd (omega arith)
bit_and-zero_below (suc n) (suc a) h =
    omega (arith, bit_and_digit (suc a) 0, bit_and-zero_below n (suc a / 2) (omega arith))

pub bit_and-zero : (a : ℕ) → bit_and a 0 ≡ 0
bit_and-zero a = bit_and-zero_below a a (omega arith)

mod_double : (a m : ℕ) → 0 < m → a % (m * 2) ≡ (a / 2) % m * 2 + a % 2
mod_double a m h = grind arith

pub pow2-pos : (k : ℕ) → 0 < 2 ^ k
pow2-pos zero = omega arith
pow2-pos (suc k) = omega (arith, pow2-pos k, pow-suc 2 k)

halved : (k : ℕ) → (2 ^ suc k - 1) / 2 ≡ 2 ^ k - 1
halved k = omega (arith, pow2-pos k, pow-suc 2 k)

pub bit_and_mask : (k a : ℕ) → bit_and a (2 ^ k - 1) ≡ a % 2 ^ k
bit_and_mask zero a = omega (arith, bit_and-zero a)
bit_and_mask (suc k) a = omega (
  arith,
  bit_and_digit a (2 ^ suc k - 1),
  ap (bit_and (a / 2)) (halved k) ∙ bit_and_mask k (a / 2),
  mod_double a (2 ^ k) (pow2-pos k),
  pow2-pos k,
  pow-suc 2 k,
  ap (λ n. a % n) (pow-suc 2 k),
)
