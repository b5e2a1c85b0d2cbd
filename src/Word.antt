-- ===== src/Word.antt =====
-- `std::size_t`, 64 bits wide, and the index mask of the circular buffers.
use asyncplusplus.Prelude.{
  ℕ, ◌+◌, ◌-◌, ◌*◌, ◌%◌, ◌^◌, ◌<◌, ◌≡◌, ap, ◌∙◌, arith, bit_and, bit_and_mask, pow2-pos,
}

abbrev pub size_mod : ℕ
size_mod = 2 ^ 64

-- Sums, differences and products of `std::size_t` wrap.
abbrev pub add_size : ℕ → ℕ → ℕ
add_size a b = (a + b) % size_mod

abbrev pub sub_size : ℕ → ℕ → ℕ
sub_size a b = (a + size_mod - b) % size_mod

abbrev pub mul_size : ℕ → ℕ → ℕ
mul_size a b = a * b % size_mod

-- `index & (size - 1)`
unfoldable pub mask : ℕ → ℕ → ℕ
mask size index = bit_and index (sub_size size 1)

abbrev pub IsPow2 : ℕ → Type 0
IsPow2 n = (k : ℕ) × (n ≡ 2 ^ k)

pub IsPow2-pos : (n : ℕ) → IsPow2 n → 0 < n
IsPow2-pos n p = omega (arith, p.1, pow2-pos p.0)

-- For a size that is a power of two the mask is the remainder.
pub mask-mod : (n i : ℕ) → IsPow2 n → n < size_mod → mask n i ≡ i % n
unfolding mask
mask-mod n i (k, e) lt =
    ap (bit_and i) minus ∙ bit_and_mask k i ∙ ap (λ m. i % m) (omega (arith, e))
  where
    minus : sub_size n 1 ≡ 2 ^ k - 1
    minus = omega (arith, e, pow2-pos k)
