-- ===== src/ThreadPool/Loop/Inv.antt =====
-- What holds of each thread of the pool between the steps.
use asyncplusplus.Prelude.{
  ℕ, ◌+◌, ◌≤◌, ◌<◌, ◌≡◌, ◌≢◌, List, [], ◌∷◌, Bool, true, false, Option, none, some, Every, length,
}
use asyncplusplus.Prelude.Count.{count}
use asyncplusplus.Prelude.Sum.{sum_to}
use asyncplusplus.TaskWaitEvent.Laws.{IsMask}
use asyncplusplus.ThreadPool.Waiters.{Waiters}
use asyncplusplus.ThreadPool.WaitersLaws.{sleeping, IsValid}
use asyncplusplus.ThreadPool.Loop
use asyncplusplus.ThreadPool.PoolState
use asyncplusplus.ThreadPool.PoolState.{
  Pool, Pc, top, popping, choosing, stealing, fetching, woken, running, notifying, locking, Frame,
}

-- The thread has found its deque empty and has not run a task since.
abbrev pub quiet : Pc → Bool
quiet top = false
quiet popping = false
quiet choosing = true
quiet (stealing vs) = true
quiet fetching = true
quiet PoolState.sleeping = true
quiet (woken ev) = true
quiet (running t) = false
quiet (notifying t) = false
quiet (locking t) = false

-- The thread's event may be on the list of sleeping threads.
abbrev pub in_sleep : Pc → Bool
in_sleep top = false
in_sleep popping = false
in_sleep choosing = false
in_sleep (stealing vs) = false
in_sleep fetching = false
in_sleep PoolState.sleeping = true
in_sleep (woken ev) = true
in_sleep (running t) = false
in_sleep (notifying t) = false
in_sleep (locking t) = false

abbrev pub mask_of : Pool → ℕ → ℕ
mask_of p e = (p.events e).event_mask

abbrev pub Masks : Pool → Type 0
Masks p = (e : ℕ) → IsMask (mask_of p e)

-- The outermost call is that of `worker_thread`; each other one waits for a task and was made while
-- the one below runs a task.
abbrev pub Under : Option ℕ → List Frame → Type 0
Under none [] = Unit
Under none (g ∷ below) = ⊥
Under (some u) [] = ⊥
Under (some u) (g ∷ below) = ((t : ℕ) × (g.pc ≡ running t)) × Under g.wait_task below

abbrev pub Shape : List Frame → Type 0
Shape [] = Unit
Shape (f ∷ below) = Under f.wait_task below

-- A quiet thread, and one that has ended, has nothing on its deque.
abbrev pub Drained : List Frame → List ℕ → Type 0
Drained [] d = d ≡ []
Drained (f ∷ below) d = quiet f.pc ≡ true → d ≡ []

-- A sleeping thread that no event has woken is on the list.
abbrev pub Listed : Pool → List Frame → Type 0
Listed p [] = Unit
Listed p (f ∷ below) =
    f.pc ≡ PoolState.sleeping → mask_of p f.event ≡ 0 → 1 ≤ sleeping p.waiters f.event

-- A thread ends only after the shutdown, and when the public queue is empty.
abbrev pub Ended : Pool → List Frame → Type 0
Ended p [] = (p.shutdown ≡ true) × (p.public_queue ≡ [])
Ended p (f ∷ below) = Unit

-- The thread is not blocked.
abbrev pub Awake : Pool → List Frame → Type 0
Awake p [] = ⊥
Awake p (f ∷ below) = f.pc ≡ PoolState.sleeping → mask_of p f.event ≢ 0

-- The innermost call of the thread is asleep with the event at `e`.
abbrev pub Asleep : List Frame → ℕ → Type 0
Asleep [] e = ⊥
Asleep (f ∷ below) e = (f.event ≡ e) × (in_sleep f.pc ≡ true)

-- Whether it has tasks to run or not, the pool is not left with every thread blocked.
abbrev pub Busy : ℕ → (ℕ → List Frame) → Pool → Type 0
Busy n stacks p = p.public_queue ≢ [] → (j : ℕ) × (j < n) × Awake p (stacks j)

-- Each task that was given to the pool has been taken, or waits, as often as it was given.
abbrev pub Counted : ℕ → Pool → Type 0
Counted n p =
    (t : ℕ)
    → count t p.given
      ≡ count t p.taken + count t p.public_queue + sum_to (λ i. count t (p.deques i)) n

module _ (thread_of : ℕ → ℕ) where
  abbrev pub Owned : ℕ → List Frame → Type 0
  Owned i = Every (λ f. thread_of f.event ≡ i)

  pub record ThreadOk (i : ℕ) (p : Pool) (fs : List Frame) : Type 0 where
    pub shape : Shape fs
    pub owned : Owned i fs
    pub drained : Drained fs (p.deques i)
    pub listed : Listed p fs
    pub ended : Ended p fs

  -- The list of sleeping threads has a slot for each thread, and holds an event only while its
  -- thread is asleep, once.
  pub record ListOk (n : ℕ) (stacks : ℕ → List Frame) (w : Waiters) : Type 0 where
    pub valid : IsValid w
    pub slots : length w.waiters ≡ n
    pub once : (e : ℕ) → sleeping w e ≤ 1
    pub holds : (e : ℕ) → 1 ≤ sleeping w e → (thread_of e < n) × Asleep (stacks (thread_of e)) e

  pub record Inv (n : ℕ) (w : Loop.World) : Type 0 where
    pub threads : (i : ℕ) → i < n → ThreadOk i w.pool (w.stacks i)
    pub list : ListOk n w.stacks w.pool.waiters
    pub busy : Busy n w.stacks w.pool
    pub counted : Counted n w.pool
    pub masks : Masks w.pool
