-- ===== src/FifoQueue/Circle.antt =====
-- Index arithmetic on the circle of `n` slots behind fifo_queue.h: head `h`, tail `t`.
use asyncplusplus.Prelude.{
  ℕ, suc, ◌+◌, ◌-◌, ◌%◌, ◌≤◌, ◌<◌, ◌≡◌, ◌∙◌, ◌≢◌, arith, ◌⊎◌, inl, inr, dec_le,
}
use native.Mathlib.Nat.{mod-eq-sub-mod, mod-eq_of_lt}

pub wrap_once : (x n : ℕ) → x < n + n → ((x < n) × (x % n ≡ x)) ⊎ ((n ≤ x) × (x % n ≡ x - n))
wrap_once x n h = elim (dec_le n x) [
  | yes le ↦ inr (le, mod-eq-sub-mod le ∙ mod-eq_of_lt (omega arith))
  | no gt ↦ inl (omega arith, mod-eq_of_lt (omega arith))
]

pub circle_end : (n h t : ℕ) → h < n → t < n → (h + (t + n - h) % n) % n ≡ t
circle_end n h t hh ht = grind arith

pub circle_ne : (n h t k : ℕ) → h < n → t < n → k < (t + n - h) % n → (h + k) % n ≢ t
circle_ne n h t k hh ht lt = grind arith

pub circle_grow :
    (n h t : ℕ)
    → h < n
    → t < n
    → h ≢ (t + 1) % n
    → ((t + 1) % n + n - h) % n ≡ suc ((t + n - h) % n)
circle_grow n h t hh ht ne = ground (
  arith,
  wrap_once (t + 1) n (omega arith),
  wrap_once (t + n - h) n (omega arith),
  wrap_once ((t + 1) % n + n - h) n (omega arith),
)

pub circle_full : (n h t : ℕ) → h < n → t < n → h ≡ (t + 1) % n → (t + n - h) % n ≡ n - 1
circle_full n h t hh ht ne = grind arith

pub circle_pop :
    (n h t : ℕ) → h < n → t < n → h ≢ t → (t + n - h) % n ≡ suc ((t + n - (h + 1) % n) % n)
circle_pop n h t hh ht ne = ground (
  arith,
  wrap_once (h + 1) n (omega arith),
  wrap_once (t + n - h) n (omega arith),
  wrap_once (t + n - (h + 1) % n) n (omega arith),
)
