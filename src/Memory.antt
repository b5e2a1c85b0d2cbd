-- ===== src/Memory.antt =====
-- The allocator behind `detail::aligned_alloc` (src/scheduler.cpp) and `operator new`. Their code
-- is the platform's: a value of this record says what an allocation of `n` pointers returns.
use asyncplusplus.Prelude.{
  ℕ, ◌≤◌, ◌^◌, ◌≡◌, List, Option, none, some, length, length-replicate, replicate, ltb,
  if◌then◌else◌, Bool-cases, inl, inr, arith, ap, sym, ◌∙◌,
}
use mathlib.Core.Option.{some-injective}

-- `none` is a thrown `std::bad_alloc`. The contents of fresh storage are unspecified, so `alloc`
-- may return any list of the right length. No more than half the address space can be allocated.
pub record Memory : Type 0 where
  pub alloc : ℕ → Option (List ℕ)
  pub alloc_sized : (n : ℕ) (xs : List ℕ) → alloc n ≡ some xs → (length xs ≡ n) × (n ≤ 2 ^ 60)

-- A memory of a megaword: the record above can be filled.
unfoldable pub small_alloc : ℕ → Option (List ℕ)
small_alloc n = if ltb n 1048576 then some (replicate n 0) else none

pub small_alloc_sized :
    (n : ℕ) (xs : List ℕ) → small_alloc n ≡ some xs → (length xs ≡ n) × (n ≤ 2 ^ 60)
unfolding small_alloc
small_alloc_sized n xs e = elim (Bool-cases (ltb n 1048576)) [
  | inl lt ↦ (
    ap length (sym (some-injective (replicate n 0) xs (rw lt at e))) ∙ length-replicate n 0,
    ground arith,
  )
  | inr ge ↦ absurd (cc (rw ge at e))
]

abbrev pub small_memory : Memory
small_memory = record { alloc = small_alloc; alloc_sized = small_alloc_sized }
