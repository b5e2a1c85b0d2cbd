-- ===== src/WorkStealQueue/Signed.antt =====
-- `to_signed` of src/work_steal_queue.h, and the tests on `bottom - top` that go through it.
use asyncplusplus.Prelude.{
  ℕ, ◌-◌, ◌^◌, ◌≤◌, ◌<◌, ◌≡◌, Bool, true, false, arith, ltb, leb, if◌then◌else◌,
}
use asyncplusplus.Prelude.Int.{ℤ, pos, negsuc, ◌+ℤ◌, ltb_ℤ, leb_ℤ}
use asyncplusplus.Word.{sub_size}

abbrev pub ptrdiff_max : ℕ
ptrdiff_max = 2 ^ 63 - 1

-- The bit pattern of PTRDIFF_MIN; its value is -(2 ^ 63).
abbrev pub ptrdiff_min_bits : ℕ
ptrdiff_min_bits = 2 ^ 63

unfoldable pub to_signed : ℕ → ℤ
to_signed x =
    if ltb ptrdiff_max x then pos (sub_size x ptrdiff_min_bits) +ℤ negsuc (2 ^ 63 - 1) else pos x

-- `to_signed(b - t) <= 0`
unfoldable pub is_empty : ℕ → ℕ → Bool
unfolding to_signed
is_empty b t = leb_ℤ (to_signed (sub_size b t)) (pos 0)

-- `to_signed(b - t) < 0`
unfoldable pub is_negative : ℕ → ℕ → Bool
unfolding to_signed
is_negative b t = ltb_ℤ (to_signed (sub_size b t)) (pos 0)

-- `to_signed(b - t) >= to_signed(size)`
unfoldable pub is_full : ℕ → ℕ → ℕ → Bool
unfolding to_signed
is_full size b t = leb_ℤ (to_signed size) (to_signed (sub_size b t))

-- The conversion is the two's complement value.
pub to_signed_lem :
    (x : ℕ) → x < 2 ^ 64 → to_signed x ≡ (if ltb x (2 ^ 63) then pos x else negsuc (2 ^ 64 - x - 1))
unfolding to_signed
to_signed_lem x h = ground arith

-- Of counters that stay below 2 ^ 62 the tests compare the counters themselves.
pub is_empty_lem : (b t : ℕ) → b < 2 ^ 62 → t < 2 ^ 62 → is_empty b t ≡ leb b t
unfolding is_empty
is_empty_lem b t hb ht = ground arith

pub is_negative_lem : (b t : ℕ) → b < 2 ^ 62 → t < 2 ^ 62 → is_negative b t ≡ ltb b t
unfolding is_negative
is_negative_lem b t hb ht = ground arith

pub is_full_lem : (n b t : ℕ) → b < 2 ^ 62 → t ≤ b → n < 2 ^ 63 → is_full n b t ≡ leb n (b - t)
unfolding is_full
is_full_lem n b t hb ht hn = ground arith

-- What the outcome of each test says.
module _ (b t : ℕ) (hb : b < 2 ^ 62) (ht : t < 2 ^ 62) where
  pub is_empty→le : is_empty b t ≡ true → b ≤ t
  is_empty→le e = ground (arith, is_empty_lem b t hb ht)

  pub not_empty→lt : is_empty b t ≡ false → t < b
  not_empty→lt e = ground (arith, is_empty_lem b t hb ht)

  pub is_negative→lt : is_negative b t ≡ true → b < t
  is_negative→lt e = ground (arith, is_negative_lem b t hb ht)

  pub not_negative→le : is_negative b t ≡ false → t ≤ b
  not_negative→le e = ground (arith, is_negative_lem b t hb ht)

pub not_full→lt : (n b t : ℕ) → b < 2 ^ 62 → t ≤ b → n < 2 ^ 63 → is_full n b t ≡ false → b - t < n
not_full→lt n b t hb ht hn e = ground (arith, is_full_lem n b t hb ht hn)
