-- ===== src/Task.antt =====
-- include/async++/task_base.h: the objects behind tasks, and the functions that they run.
pub mod Handlers
pub mod Operations
pub mod System
pub mod Weights
pub mod Balance
pub mod Local
pub mod Starts
pub mod Ends
pub mod Passing
pub mod Locks
pub mod Flushes
pub mod Kept
pub mod Good
pub mod Commands
pub mod Safety
pub mod Results
pub mod Progress
pub mod Delivery
mod Tests
use asyncplusplus.Prelude.{ℕ, List, [], ◌∷◌, Bool, true, false, Option, none, some}
use asyncplusplus.ContinuationVector.Contract.{Phase, accepting}

pub data TaskState : Type 0 where
  pending locked unwrapped completed canceled : TaskState

unfoldable pub is_finished : TaskState → Bool
is_finished completed = true
is_finished canceled = true
is_finished pending = false
is_finished locked = false
is_finished unwrapped = false

-- What `schedule` does with a task: run it at once, or keep its handle for later.
pub data Scheduler : Type 0 where
  inline_ keeping : Scheduler

-- The function with which a task object is created: that of `root_exec_func` or of
-- `continuation_exec_func`, with its `Unwrap`; or `unwrapped_func`, which is a task-based
-- continuation of `child` under the inline scheduler; or none, for the object of an `event_task`.
pub data Exec : Type 0 where
  root : (sched : Scheduler) (unwrap : Bool) → Exec
  on_value : (sched : Scheduler) (unwrap : Bool) (parent : ℕ) → Exec  -- `ValueCont` is not false
  on_task : (sched : Scheduler) (unwrap : Bool) (parent : ℕ) → Exec
  forward : (parent child : ℕ) → Exec
  event : Exec

abbrev pub scheduler_of : Exec → Scheduler
scheduler_of (root s u) = s
scheduler_of (on_value s u p) = s
scheduler_of (on_task s u p) = s
scheduler_of (forward p c) = inline_
scheduler_of event = inline_

abbrev pub unwraps : Exec → Bool
unwraps (root s u) = u
unwraps (on_value s u p) = u
unwraps (on_task s u p) = u
unwraps (forward p c) = false
unwraps event = false

-- The task that a continuation is added to.
abbrev pub parent_of : Exec → Option ℕ
parent_of (root s u) = none
parent_of (on_value s u p) = some p
parent_of (on_task s u p) = some p
parent_of (forward p c) = some c
parent_of event = none

-- A task object, but for what never changes. `destroyed` is how often `destroy_func` has been
-- called; `phase` and `waiting` are its `continuation_vector`, by the contract of that.
pub record Task : Type 0 where
  pub state : TaskState
  pub result : Option ℕ
  pub except : Option ℕ
  pub destroyed : ℕ
  pub phase : Phase
  pub waiting : List ℕ

-- `task_base::task_base`
abbrev pub new_task : Task
new_task = record {
  state = pending;
  result = none;
  except = none;
  destroyed = 0;
  phase = accepting;
  waiting = [];
}
