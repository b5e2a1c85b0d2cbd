-- ===== src/FifoScheduler.antt =====
-- `fifo_scheduler` of src/scheduler.cpp: a queue of tasks that one thread runs in order. Its mutex
-- makes each access of the queue one step; a task that is run may schedule other tasks.
pub mod Laws
mod Tests
use asyncplusplus.Prelude.{ℕ, zero, suc, List, [], ◌∷◌, Option, none, some, ◌==◌, true, false}
use mathlib.Core.Option
use asyncplusplus.Memory.{Memory}
use asyncplusplus.FifoQueue
use asyncplusplus.FifoQueue.{FifoQueue, Outcome, ok, bad_alloc, push, pop}

-- `internal_data`: the queue, less its mutex.
pub record FifoScheduler : Type 0 where
  pub queue : FifoQueue

module _ (m : Memory) where
  -- The constructor; `none` if it is out of memory.
  unfoldable pub new_scheduler : Option FifoScheduler
  new_scheduler = Option.map (λ q. record { queue = q }) (FifoQueue.init m)

  unfoldable pub schedule : FifoScheduler → ℕ → Outcome × FifoScheduler
  schedule s t = let (o, q) = push m s.queue t in (o, record { queue = q })

  -- What the function of a task schedules, until it is done or an exception ends it.
  unfoldable pub schedule_all : FifoScheduler → List ℕ → FifoScheduler
  unfolding schedule
  schedule_all s [] = s
  schedule_all s (t ∷ ts) =
      let (o, after) = schedule s t in elim o [ ok ↦ schedule_all after ts | bad_alloc ↦ after ]

  -- `spawns t` is what task `t` would schedule on this scheduler when it runs.
  module _ (spawns : ℕ → List ℕ) where
    -- The task that was run, and the scheduler after it; `none` if there is none and false is
    -- returned.
    unfoldable pub try_run_one_task : FifoScheduler → Option (ℕ × FifoScheduler)
    unfolding schedule_all
    try_run_one_task s =
        let (t, q) = pop s.queue in
        elim (t == 0) [
          | true ↦ none
          | false ↦ some (t, schedule_all (record { queue = q }) (spawns t))
        ]

    -- The tasks that are run, in order; `none` if the loop has not ended within the fuel.
    unfoldable pub run_all_tasks : ℕ → FifoScheduler → Option (List ℕ × FifoScheduler)
    unfolding try_run_one_task
    run_all_tasks zero s = none
    run_all_tasks (suc fuel) s = elim (try_run_one_task s) [
      | none ↦ some ([], s)
      | some (t, after) ↦ Option.map (λ (ts, last). (t ∷ ts, last)) (run_all_tasks fuel after)
    ]
