-- ===== src/ThreadPool/Loop.antt =====
-- What a thread of the pool does in `thread_task_loop`, `steal_task` and `schedule`, cut at the points
-- where another thread may come between. What it does under the mutex is one step.
pub mod Inv
pub mod Masks
pub mod Gentle
pub mod Others
pub mod Own
pub mod Slots
pub mod Counts
pub mod Awake
pub mod Kept
pub mod Progress
pub mod Laws
pub mod Wakes
mod Tests
use asyncplusplus.Prelude.{
  ℕ, ◌<◌, ◌≡◌, ◌≢◌, ◌⊎◌, ◌||◌, List, [], ◌∷◌, ◌++◌, Bool, true, false, Option, none, some, update,
  replicate,
}
use asyncplusplus.Prelude.Count.{count}
use asyncplusplus.Prelude.Ranges.{inside}
use asyncplusplus.TaskWaitEvent.{
  TaskWaitEvent, task_finished, task_available, new_event, wait, try_wait, signal,
}
use asyncplusplus.TaskWaitEvent.Laws.{pending}
use asyncplusplus.ThreadPool.Waiters.{Waiters, join, leave, wake_one, wake_all}
use asyncplusplus.ThreadPool.PoolState.{
  Frame, Pool, asleep_frame, at, choosing, fetch, fetching, locking, new_pool, notify, notifying,
  popping, prepare_sleep, push_own, running, schedule_outside, set_event, shut_down, sleeping,
  stealing, take_from, thread_task_loop, top, woken,
}

-- The steps of thread `i` of `n` whose innermost call is `f`, over the calls `below`, that leave the
-- pool as it is: the calls after the step.
pub data Inner (n i : ℕ) (p : Pool) (f : Frame) (below : List Frame) : List Frame → Type 0 where
  returns_ready :
      {u : ℕ}
      → f.pc ≡ top
      → f.wait_task ≡ some u
      → f.added_continuation ≡ false
      → Inner n i p f below below
  goes_on :
      f.pc ≡ top
      → (f.wait_task ≡ none) ⊎ (f.added_continuation ≡ false)
      → Inner n i p f below (at f popping ∷ below)
  finds_none : f.pc ≡ popping → p.deques i ≡ [] → Inner n i p f below (at f choosing ∷ below)
  shuffles :
      (vs : List ℕ)
      → f.pc ≡ choosing
      → ((j : ℕ) → count j vs ≡ inside 0 n j)
      → Inner n i p f below (at f (stealing vs) ∷ below)
  skips :
      {v : ℕ} {vs : List ℕ}
      → f.pc ≡ stealing (v ∷ vs)
      → v ≡ i
      → Inner n i p f below (at f (stealing vs) ∷ below)
  misses :
      {v : ℕ} {vs : List ℕ}
      → f.pc ≡ stealing (v ∷ vs)
      → v ≢ i
      → Inner n i p f below (at f (stealing vs) ∷ below)
  gives_up : f.pc ≡ stealing [] → Inner n i p f below (at f fetching ∷ below)
  exits :
      f.pc ≡ fetching
      → p.public_queue ≡ []
      → f.wait_task ≡ none
      → p.shutdown ≡ true
      → Inner n i p f below below
  sees_none :
      {t : ℕ}
      → f.pc ≡ notifying t
      → p.waiters.num_waiters ≡ 0
      → Inner n i p f below (at f (running t) ∷ below)
  sees_waiters :
      {t : ℕ}
      → f.pc ≡ notifying t
      → p.waiters.num_waiters ≢ 0
      → Inner n i p f below (at f (locking t) ∷ below)
  finishes : {t : ℕ} → f.pc ≡ running t → Inner n i p f below (at f top ∷ below)

-- `thread_of` says on which thread's stack an address lies.
pub data Move (thread_of : ℕ → ℕ) (n i : ℕ) (p : Pool) (f : Frame) (below : List Frame)
    : List Frame → Pool → Type 0 where
  inner : {fs : List Frame} → Inner n i p f below fs → Move thread_of n i p f below fs p
  returns_signalled :
      {u : ℕ}
      → f.pc ≡ top
      → f.wait_task ≡ some u
      → f.added_continuation ≡ true
      → (try_wait (p.events f.event) task_finished).0 ≡ true
      → Move thread_of n i p f below below
          (set_event p f.event (try_wait (p.events f.event) task_finished).1)
  goes_on_unsignalled :
      {u : ℕ}
      → f.pc ≡ top
      → f.wait_task ≡ some u
      → f.added_continuation ≡ true
      → (try_wait (p.events f.event) task_finished).0 ≡ false
      → Move thread_of n i p f below
          (at f popping ∷ below)
          (set_event p f.event (try_wait (p.events f.event) task_finished).1)
  pops :
      {t : ℕ} (l : List ℕ)
      → f.pc ≡ popping
      → p.deques i ≡ l ++ (t ∷ [])
      → Move thread_of n i p f below (at f (running t) ∷ below) (take_from p i t l)
  steals :
      {v t : ℕ} {vs : List ℕ} (l : List ℕ)
      → f.pc ≡ stealing (v ∷ vs)
      → v ≢ i
      → v < n
      → p.deques v ≡ t ∷ l
      → Move thread_of n i p f below (at f (running t) ∷ below) (take_from p v t l)
  fetches :
      {t : ℕ} {l : List ℕ}
      → f.pc ≡ fetching
      → p.public_queue ≡ t ∷ l
      → Move thread_of n i p f below (at f (running t) ∷ below) (fetch p t l)
  sleeps :
      f.pc ≡ fetching
      → p.public_queue ≡ []
      → (f.wait_task ≢ none) ⊎ (p.shutdown ≡ false)
      → Move thread_of n i p f below (asleep_frame f ∷ below) (prepare_sleep p f)
  wakes :
      {events : ℕ}
      → f.pc ≡ sleeping
      → (wait (p.events f.event)).0 ≡ some events
      → Move thread_of n i p f below
          (at f (woken events) ∷ below)
          (set_event p f.event (wait (p.events f.event)).1)
  leaves_done :
      {events u : ℕ}
      → f.pc ≡ woken events
      → f.wait_task ≡ some u
      → pending events task_finished ≡ true
      → Move thread_of n i p f below below (record p { waiters = leave p.waiters f.event })
  leaves :
      {events : ℕ}
      → f.pc ≡ woken events
      → (f.wait_task ≡ none) ⊎ (pending events task_finished ≡ false)
      → Move thread_of n i p f below
          (at f choosing ∷ below)
          (record p { waiters = leave p.waiters f.event })
  pushes :
      {t : ℕ} (c : ℕ)
      → f.pc ≡ running t
      → Move thread_of n i p f below (at f (notifying t) ∷ below) (push_own p i c)
  notifies :
      {t : ℕ}
      → f.pc ≡ locking t
      → Move thread_of n i p f below (at f (running t) ∷ below) (notify p)
  -- The task that runs waits for another, in `threadpool_wait_handler`.
  waits :
      {t : ℕ} (u e : ℕ)
      → f.pc ≡ running t
      → thread_of e ≡ i
      → Move thread_of n i p f below
          (thread_task_loop e (some u) ∷ f ∷ below)
          (set_event p e new_event)

pub record World : Type 0 where
  pub stacks : ℕ → List Frame
  pub pool : Pool

-- Threads of the pool, the other threads, and those that finish tasks, in any order.
pub data Step (thread_of : ℕ → ℕ) (n : ℕ) (w : World) : World → Type 0 where
  acts :
      (i : ℕ) {f : Frame} {below fs : List Frame} {p : Pool}
      → i < n
      → w.stacks i ≡ f ∷ below
      → Move thread_of n i w.pool f below fs p
      → Step thread_of n w (record { stacks = update w.stacks i fs; pool = p })
  schedules :
      (t : ℕ)
      → w.pool.shutdown ≡ false
      → Step thread_of n w (record w { pool = schedule_outside w.pool t })
  shuts_down : w.pool.shutdown ≡ false → Step thread_of n w (record w { pool = shut_down w.pool })
  fires :
      (left : List ℕ) (e : ℕ) (right : List ℕ)
      → w.pool.callbacks ≡ left ++ (e ∷ right)
      → Step thread_of n w (record w {
        pool = record w.pool {
          callbacks = left ++ right;
          events = update w.pool.events e (signal (w.pool.events e) task_finished);
        };
      })

-- `worker_thread` in each of the threads, with its event at `first i`.
abbrev pub start : (ℕ → ℕ) → ℕ → World
start first n = record { stacks = λ i. thread_task_loop (first i) none ∷ []; pool = new_pool n }

pub data Reach (thread_of first : ℕ → ℕ) (n : ℕ) : World → Type 0 where
  begin : Reach thread_of first n (start first n)
  later :
      {w w' : World}
      → Reach thread_of first n w
      → Step thread_of n w w'
      → Reach thread_of first n w'
