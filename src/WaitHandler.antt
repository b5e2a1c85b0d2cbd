-- ===== src/WaitHandler.antt =====
-- A thread outside of the pool that waits for a task: `task_base::wait`
-- (include/async++/task_base.h), `task_wait_handle` (include/async++/scheduler.h), and
-- `wait_for_task` with `generic_wait_handler` (src/scheduler.cpp). Any number of threads wait for
-- one task, which another thread finishes.
pub mod Knows
pub mod Laws
mod Tests
use asyncplusplus.Prelude.{ℕ, ◌≡◌, List, [], ◌∷◌, ◌++◌, Bool, true, false, Option, some, update}
use asyncplusplus.TaskWaitEvent
use asyncplusplus.TaskWaitEvent.{TaskWaitEvent, task_finished, new_event, wait, signal}
use asyncplusplus.Task.{TaskState, is_finished}

-- The task: its state, whether its continuations have been flushed, and those of `on_finish` that it
-- keeps, each by the thread whose event it signals. `events` has the event of each thread.
pub record Shared : Type 0 where
  pub state : TaskState
  pub is_locked : Bool
  pub continuations : List ℕ
  pub events : ℕ → TaskWaitEvent

pub data Pc : Type 0 where
  reading : Pc  -- before the load of the state
  creating : Pc  -- in `generic_wait_handler`, before the event is made
  adding : Pc  -- before the load of the state in `add_continuation`
  trying : Pc  -- before `try_add`
  sleeping : Pc  -- in `event.wait`
  reloading : Pc  -- before the second load of the state
  done : (result : TaskState) → Pc

abbrev pub set_event : Shared → ℕ → TaskWaitEvent → Shared
set_event s i v = record s { events = update s.events i v }

-- A step of thread `i`, which waits. A continuation that comes too late is run at once.
pub data WaitMove (i : ℕ) (s : Shared) : Pc → Pc → Shared → Type 0 where
  finds_finished : is_finished s.state ≡ true → WaitMove i s reading (done s.state) s
  finds_unfinished : is_finished s.state ≡ false → WaitMove i s reading creating s
  creates : WaitMove i s creating adding (set_event s i (TaskWaitEvent.init new_event))
  finds_done :
      is_finished s.state ≡ true
      → WaitMove i s adding sleeping (set_event s i (signal (s.events i) task_finished))
  finds_not_done : is_finished s.state ≡ false → WaitMove i s adding trying s
  adds :
      s.is_locked ≡ false
      → WaitMove i s trying sleeping (record s { continuations = s.continuations ++ (i ∷ []) })
  adds_late :
      s.is_locked ≡ true
      → WaitMove i s trying sleeping (set_event s i (signal (s.events i) task_finished))
  wakes :
      {events : ℕ}
      → (wait (s.events i)).0 ≡ some events
      → WaitMove i s sleeping reloading (set_event s i (wait (s.events i)).1)
  reloads : WaitMove i s reloading (done s.state) s

-- The thread that finishes the task.
pub data Finisher : Type 0 where
  working : Finisher  -- before the state is stored
  finished : Finisher  -- before the continuations are flushed
  running : (continuations : List ℕ) → Finisher  -- the continuations still to run

pub data FinishMove (s : Shared) : Finisher → Finisher → Shared → Type 0 where
  works :
      (state : TaskState)
      → is_finished state ≡ false
      → FinishMove s working working (record s { state = state })
  finishes :
      (state : TaskState)
      → is_finished state ≡ true
      → FinishMove s working finished (record s { state = state })
  flushes :
      FinishMove s finished
        (running s.continuations)
        (record s { is_locked = true; continuations = [] })
  runs :
      {i : ℕ} {rest : List ℕ}
      → FinishMove s
          (running (i ∷ rest))
          (running rest)
          (set_event s i (signal (s.events i) task_finished))

pub record World : Type 0 where
  pub threads : ℕ → Pc
  pub finisher : Finisher
  pub shared : Shared

pub data Step (w : World) : World → Type 0 where
  waits :
      (i : ℕ) {pc : Pc} {s : Shared}
      → WaitMove i w.shared (w.threads i) pc s
      → Step w (record w { threads = update w.threads i pc; shared = s })
  acts :
      {f : Finisher} {s : Shared}
      → FinishMove w.shared w.finisher f s
      → Step w (record w { finisher = f; shared = s })

-- A new task, for which no thread waits yet.
abbrev pub start : World
start = record {
  threads = λ i. reading;
  finisher = working;
  shared = record {
    state = TaskState.pending;
    is_locked = false;
    continuations = [];
    events = λ i. new_event;
  };
}

pub data Reach : World → Type 0 where
  begin : Reach start
  later : {w w' : World} → Reach w → Step w w' → Reach w'
