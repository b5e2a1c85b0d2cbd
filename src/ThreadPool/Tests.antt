-- ===== src/ThreadPool/Tests.antt =====
-- A pool of three threads, and three threads that sleep.
use asyncplusplus.Prelude.{ℕ, ◌≡◌, refl, [], ◌∷◌, none, some, arith}
use asyncplusplus.Prelude.Count.{count}
use asyncplusplus.Prelude.Ranges.{inside}
use asyncplusplus.ThreadPool.Spawn.{
  Started, recursive_spawn, start_pool, spawned, start_pool_lem, recursive_spawn-zero,
}
use asyncplusplus.ThreadPool.Waiters.{Waiters, leave, leave_from, remove_at}

three_threads :
    start_pool 3 3 ≡ some (record { workers = 0 ∷ 1 ∷ 2 ∷ []; handles = 0 ∷ 1 ∷ 2 ∷ [] })
unfolding start_pool recursive_spawn spawned
three_threads = refl

start_pool_example :
    (s : Started) × (start_pool 3 3 ≡ some s)
    × ((j : ℕ) → count j s.workers ≡ inside 0 3 j)
    × ((j : ℕ) → count j s.handles ≡ inside 0 3 j)
start_pool_example = start_pool_lem 3 (omega arith) (omega arith)

recursive_spawn-zero_example : recursive_spawn 100 0 0 ≡ none
recursive_spawn-zero_example = recursive_spawn-zero 100 0

abbrev asleep : Waiters
asleep = record { waiters = 70 ∷ 80 ∷ 90 ∷ 0 ∷ []; num_waiters = 3 }

first_leaves : leave asleep 70 ≡ record { waiters = 90 ∷ 80 ∷ 70 ∷ 0 ∷ []; num_waiters = 2 }
unfolding leave leave_from remove_at
first_leaves = refl
