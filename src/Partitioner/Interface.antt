-- ===== src/Partitioner/Interface.antt =====
-- What the algorithms of parallel_for.h and parallel_reduce.h need of a partitioner.
use asyncplusplus.Prelude.{ℕ, ◌≤◌, ◌<◌, ◌≡◌, ◌≢◌, suc, ◌-◌, arith}

-- What the parallel algorithms ask of a partitioner. `split` runs on some thread, shrinks the
-- partitioner to the part that it keeps (the first component) and returns the other part.
pub record Partitioner (P : Type 0) : Type 1 where
  pub begin : P → ℕ
  pub finish : P → ℕ
  pub split : ℕ → P → P × P
  pub IsRange : P → Type 0
  pub ordered : (p : P) → IsRange p → begin p ≤ finish p
  -- The two parts are ranges, and lie end to end.
  pub kept : (t : ℕ) (p : P) → IsRange p → IsRange (split t p).0 × (begin (split t p).0 ≡ begin p)
  pub given :
      (t : ℕ) (p : P)
      → IsRange p
      → IsRange (split t p).1
        × (begin (split t p).1 ≡ finish (split t p).0)
        × (finish (split t p).1 ≡ finish p)
  -- If something is split off, something is kept.
  pub both :
      (t : ℕ) (p : P)
      → IsRange p
      → begin (split t p).1 ≢ finish (split t p).1
      → begin (split t p).0 < finish (split t p).0

module _ {P : Type 0} (d : Partitioner P) where
  open d use {begin, finish, split, IsRange, ordered, kept, given, both}

  -- Both parts of a proper split are shorter than the whole.
  pub shorter :
      (n t : ℕ) (p : P)
      → IsRange p
      → finish p - begin p < suc n
      → begin (split t p).1 ≢ finish (split t p).1
      → (finish (split t p).1 - begin (split t p).1 < n)
        × (finish (split t p).0 - begin (split t p).0 < n)
  shorter n t p r h more =
      omega (
        arith,
        kept t p r,
        given t p r,
        both t p r more,
        ordered (split t p).1 (given t p r).0,
        more,
      )
