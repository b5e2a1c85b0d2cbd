-- ===== src/FifoScheduler/Tests.antt =====
-- Two tasks wait, and the first schedules a third when it runs.
use asyncplusplus.Prelude.{ℕ, ◌≡◌, refl, List, [], ◌∷◌, some, if◌then◌else◌, ◌==◌}
use asyncplusplus.Word.{mask}
use asyncplusplus.Memory.{small_memory}
use asyncplusplus.FifoQueue.{push, pop}
use asyncplusplus.FifoScheduler.{
  FifoScheduler, schedule, schedule_all, try_run_one_task, run_all_tasks,
}

abbrev two_wait : FifoScheduler
two_wait = record { queue = record { items = 7 ∷ 99 ∷ 5 ∷ 6 ∷ []; head = 2; tail = 0 } }

abbrev spawns : ℕ → List ℕ
spawns t = if t == 5 then 8 ∷ [] else []

runs :
    run_all_tasks small_memory spawns 4 two_wait
    ≡ some (
      5 ∷ 6 ∷ 8 ∷ [],
      record { queue = record { items = 8 ∷ 99 ∷ 5 ∷ 6 ∷ []; head = 1; tail = 1 } },
    )
unfolding run_all_tasks try_run_one_task schedule_all schedule push pop mask
runs = refl
