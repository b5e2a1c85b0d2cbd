-- ===== src/ThreadPool/Loop/Laws.antt =====
-- What the pool promises, whatever its threads, the other threads and the tasks do.
use asyncplusplus.Prelude.{
  ℕ, ◌+◌, ◌<◌, ◌^◌, ◌≡◌, ◌≢◌, ap, List, [], ◌∷◌, true, arith, inl, inr, ◌⊎◌, length,
}
use mathlib.Core.Path.{subst}
use asyncplusplus.Prelude.Count.{count}
use asyncplusplus.Prelude.Sum.{sum_to-none, sum_to, sum_to-congr}
use asyncplusplus.ThreadPool.Loop.{World, Reach}
use asyncplusplus.ThreadPool.PoolState.{Pool, fetching, Frame}
use asyncplusplus.ThreadPool.Loop.Inv.{quiet, in_sleep, Drained, Ended, Awake, Inv}
use asyncplusplus.ThreadPool.Loop.Slots.{room}
use asyncplusplus.ThreadPool.Loop.Kept.{reach-Inv}
use asyncplusplus.ThreadPool.Loop.Progress.{Advances, Awake-Advances}

-- A thread with a task on its deque is not blocked.
Drained-Awake : (p : Pool) (fs : List Frame) (d : List ℕ) → Drained fs d → d ≢ [] → Awake p fs
Drained-Awake p [] d h ne = absurd (ne h)
Drained-Awake p (f ∷ below) d h ne = λ q. absurd (ne (h (ap quiet q)))

module _ (thread_of first : ℕ → ℕ) (n : ℕ) (some_thread : 0 < n) (small : n < 2 ^ 64)
    (own_event : (i : ℕ) → i < n → thread_of (first i) ≡ i) (w : World)
    (reach : Reach thread_of first n w) where
  inv : Inv thread_of n w
  inv = reach-Inv thread_of n first some_thread small own_event reach

  -- In every reachable state of a pool of one thread or more in which a task
  -- waits in the public queue or on the deque of a thread, some thread of the pool can take a step.
  pub work_conserved :
      (w.pool.public_queue ≢ []) ⊎ ((i : ℕ) × (i < n) × (w.pool.deques i ≢ []))
      → (j : ℕ) × (j < n) × Advances thread_of n j w.pool (w.stacks j)
  work_conserved (inl full) =
      let (j, lt, awake) = inv.busy full in
      (j, lt, Awake-Advances thread_of n j w.pool (w.stacks j) awake)
  work_conserved (inr (i, lt, full)) = (
    i,
    lt,
    Awake-Advances thread_of n i w.pool (w.stacks i)
        (Drained-Awake w.pool (w.stacks i) (w.pool.deques i) (inv.threads i lt).drained full),
  )

  -- In every reachable state each task was taken by a thread of the pool, or waits in the public
  -- queue or on a deque, exactly as often as it was scheduled.
  pub no_task_lost :
      (t : ℕ)
      → count t w.pool.given
        ≡ count t w.pool.taken
          + count t w.pool.public_queue
          + sum_to (λ i. count t (w.pool.deques i)) n
  no_task_lost = inv.counted

  -- When all the threads of the pool have ended, the pool has been shut down, no task is left in the
  -- public queue or on a deque, and each task was taken exactly as often as it was scheduled.
  pub shutdown_complete :
      ((i : ℕ) → i < n → w.stacks i ≡ [])
      → (w.pool.shutdown ≡ true)
        × (w.pool.public_queue ≡ [])
        × ((i : ℕ) → i < n → w.pool.deques i ≡ [])
        × ((t : ℕ) → count t w.pool.given ≡ count t w.pool.taken)
  unfolding count
  shutdown_complete ended = (
    last_one.0,
    last_one.1,
    drained,
    λ t. omega (
      arith,
      inv.counted t,
      ap (count t) last_one.1,
      sum_to-congr (λ i. count t (w.pool.deques i)) (λ i. 0) n
          (λ i lt. ap (count t) (drained i lt)),
      sum_to-none n,
    ),
  )
    where
      last_one : Ended w.pool []
      last_one = subst (Ended w.pool) (ended 0 some_thread) (inv.threads 0 some_thread).ended

      drained : (i : ℕ) → i < n → w.pool.deques i ≡ []
      drained i lt =
          subst (λ k. Drained k (w.pool.deques i)) (ended i lt) (inv.threads i lt).drained

  -- A thread that is about to put its event on the list of sleeping threads finds a free slot in the
  -- array, which has one for each thread.
  pub waiters_fit :
      (i : ℕ) (f : Frame) (below : List Frame)
      → i < n
      → w.stacks i ≡ f ∷ below
      → f.pc ≡ fetching
      → (w.pool.waiters.num_waiters < length w.pool.waiters.waiters)
        × (length w.pool.waiters.waiters ≡ n)
  waiters_fit i f below lt s q = (
    room thread_of n w.stacks w.pool.waiters inv.list i f below s lt (ap in_sleep q),
    inv.list.slots,
  )
