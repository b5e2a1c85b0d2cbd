-- ===== src/WorkStealQueue/System.antt =====
-- The owner and any number of thieves over one deque, interleaved in any order.
use asyncplusplus.Prelude.{ℕ, List, [], ◌∷◌, update}
use asyncplusplus.Memory.{Memory}
use asyncplusplus.WorkStealQueue.Deque.{Event}
use asyncplusplus.WorkStealQueue.Moves.{Shared, OwnerPc, ThiefPc, OwnerMove, ThiefMove}

pub record System : Type 0 where
  pub shared : Shared
  pub owner : OwnerPc
  pub thieves : ℕ → ThiefPc

pub data Step (m : Memory) (s : System) : Event → System → Type 0 where
  own :
      {e : Event} {sh : Shared} {pc : OwnerPc}
      → OwnerMove m s.shared s.owner e sh pc
      → Step m s e (record s { shared = sh; owner = pc })
  thieve :
      (i : ℕ) {e : Event} {sh : Shared} {pc : ThiefPc}
      → ThiefMove m s.shared (s.thieves i) e sh pc
      → Step m s e (record s { shared = sh; thieves = update s.thieves i pc })

-- The constructor, with the storage of its first array of 32 slots.
abbrev pub init : List ℕ → System
init xs = record {
  shared = record { arrays = λ _. xs; array = 0; top = 0; bottom = 0 };
  owner = OwnerPc.idle;
  thieves = λ _. ThiefPc.waiting;
}

-- The states that the constructor and then the steps lead to, with what happened on the way.
pub data Reach (m : Memory) (xs : List ℕ) : List Event → System → Type 0 where
  start : Reach m xs [] (init xs)
  later :
      {tr : List Event} {e : Event} {s t : System}
      → Reach m xs tr s
      → Step m s e t
      → Reach m xs (e ∷ tr) t
