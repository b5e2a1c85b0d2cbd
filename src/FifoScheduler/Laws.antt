-- ===== src/FifoScheduler/Laws.antt =====
-- `run_all_tasks` runs the tasks in the order in which they were scheduled, and ends.
use asyncplusplus.Prelude.{
  ℕ, ◌+◌, ◌*◌, length, ◌≡◌, ◌≢◌, List, [], ◌∷◌, ◌++◌, Option, none, some, Every, ◌⊎◌,
}
use asyncplusplus.Memory.{Memory}
use asyncplusplus.FifoQueue.Inv.{IsValid}
use asyncplusplus.FifoQueue.Refine.{contents}
use asyncplusplus.FifoScheduler.{FifoScheduler}

abbrev pub waiting : FifoScheduler → List ℕ
waiting s = contents s.queue

-- Handles are not null.
abbrev pub IsTask : ℕ → Type 0
IsTask t = t ≢ 0

abbrev pub IsReady : FifoScheduler → Type 0
IsReady s = IsValid s.queue × Every IsTask (waiting s)

-- Nothing was lost, or the allocation has failed that a full queue of these tasks needs for one more.
abbrev pub Excused : Memory → List ℕ → List ℕ → Type 0
Excused m queue lost = (lost ≡ []) ⊎ (m.alloc ((length queue + 1) * 2) ≡ none)

-- The tasks `log` are run from a list in first-in first-out order; each adds the tasks that it
-- spawns, in order, all of them unless the queue cannot grow, from which on the rest is lost.
pub data Serves (m : Memory) (spawns : ℕ → List ℕ) : List ℕ → List ℕ → Type 0 where
  served : Serves m spawns [] []
  serves :
      (t : ℕ) {l log : List ℕ} (kept lost : List ℕ)
      → spawns t ≡ kept ++ lost
      → Excused m (l ++ kept) lost
      → Serves m spawns (l ++ kept) log
      → Serves m spawns (t ∷ l) (t ∷ log)

module _ (m : Memory) where
  -- Scheduling adds the tasks, or, if an allocation fails, a first part of them.
  abbrev Adds : FifoScheduler → List ℕ → FifoScheduler → Type 0
  Adds s ts after =
      (kept : List ℕ) × (lost : List ℕ) × (ts ≡ kept ++ lost)
      × Excused m (waiting after) lost
      × IsValid after.queue
      × (waiting after ≡ waiting s ++ kept)

  module _ (spawns : ℕ → List ℕ) where
    -- One call runs the first task, or finds that there is none.
    abbrev Tried : FifoScheduler → Option (ℕ × FifoScheduler) → Type 0
    Tried s r =
        ((waiting s ≡ []) × (r ≡ none))
        ⊎ ((t : ℕ) × (after : FifoScheduler) × (rest : List ℕ) × (kept : List ℕ) × (lost : List ℕ)
            × (r ≡ some (t, after))
            × (waiting s ≡ t ∷ rest)
            × (spawns t ≡ kept ++ lost)
            × Excused m (waiting after) lost
            × IsValid after.queue
            × (waiting after ≡ rest ++ kept))
