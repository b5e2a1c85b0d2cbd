-- ===== src/Task/Operations.antt =====
-- include/async++/task.h and scheduler.h: what the operations of the user do to the task objects, and
-- what they leave their thread to do. `next` is the address of the object that they create.
use asyncplusplus.Prelude.{
  ℕ, suc, List, [], ◌∷◌, Bool, true, false, update, ◌⊎◌, inl, inr, ◌≡◌, ◌≢◌, refl,
}
use asyncplusplus.Task.{TaskState, pending, locked, unwrapped, completed, canceled, Task, new_task}
use asyncplusplus.Task.Handlers.{Command, run, finish, cancel, cancel_base, schedule, add}

-- `returns` is whether the operation took effect.
pub record Effect : Type 0 where
  pub tasks : ℕ → Task
  pub next : ℕ
  pub commands : List Command
  pub returns : Bool

module _ (tasks : ℕ → Task) (next : ℕ) where
  -- `spawn`: a new task is passed to `schedule_task`.
  abbrev pub spawn_task : Effect
  spawn_task = record {
    tasks = update tasks next new_task;
    next = suc next;
    commands = schedule next ∷ [];
    returns = true;
  }

  -- A new task is added to the continuations of `my_internal`.
  abbrev pub then_internal : ℕ → Effect
  then_internal my_internal = record {
    tasks = update tasks next new_task;
    next = suc next;
    commands = add my_internal next ∷ [];
    returns = true;
  }

  -- The constructor of `basic_event`.
  abbrev pub basic_event : Effect
  basic_event = record {
    tasks = update tasks next new_task;
    next = suc next;
    commands = [];
    returns = true;
  }

  -- The compare-exchange on the state of an event has succeeded, or failed.
  abbrev locks_event : ℕ → Command → Effect
  locks_event t c = record {
    tasks = update tasks t (record (tasks t) { state = locked });
    next = next;
    commands = c ∷ [];
    returns = true;
  }

  abbrev refuses_event : Effect
  refuses_event = record { tasks = tasks; next = next; commands = []; returns = false }

  -- Storing the result ends normally, or throws and the event is canceled.
  abbrev pub set_result_or : ℕ → ℕ ⊎ ℕ → Command
  set_result_or t (inl v) = finish t v
  set_result_or t (inr e) = cancel_base t e

  -- By the state of the event `t`.
  abbrev pub set_internal_with : ℕ → ℕ ⊎ ℕ → TaskState → Effect
  set_internal_with t f pending = locks_event t (set_result_or t f)
  set_internal_with t f locked = refuses_event
  set_internal_with t f unwrapped = refuses_event
  set_internal_with t f completed = refuses_event
  set_internal_with t f canceled = refuses_event

  abbrev pub set_exception_with : ℕ → ℕ → TaskState → Effect
  set_exception_with t e pending = locks_event t (cancel_base t e)
  set_exception_with t e locked = refuses_event
  set_exception_with t e unwrapped = refuses_event
  set_exception_with t e completed = refuses_event
  set_exception_with t e canceled = refuses_event

-- `task_run_handle::run`, and its destructor while it holds a task.
abbrev pub run_handle : ℕ → Command
run_handle t = run t

abbrev pub destroy_handle : ℕ → ℕ → Command
destroy_handle t e = cancel t e

-- An event that is not pending is left as it is, by `set` and by `set_exception`.
module _ (tasks : ℕ → Task) (next t e : ℕ) (f : ℕ ⊎ ℕ) where
  abbrev Refused : TaskState → Type 0
  Refused s =
      (set_internal_with tasks next t f s ≡ refuses_event tasks next)
      × (set_exception_with tasks next t e s ≡ refuses_event tasks next)

  pub set-Refused : (s : TaskState) → s ≢ pending → Refused s
  set-Refused pending ne = absurd (ne refl)
  set-Refused locked ne = (refl, refl)
  set-Refused unwrapped ne = (refl, refl)
  set-Refused completed ne = (refl, refl)
  set-Refused canceled ne = (refl, refl)
