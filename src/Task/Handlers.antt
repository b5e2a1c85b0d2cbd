-- ===== src/Task/Handlers.antt =====
-- The functions of the virtual table and those they call, cut at the points where another thread can
-- see or change the object: a thread has a stack of the `Command`s it has yet to do.
use asyncplusplus.Prelude.{ℕ, suc, List, [], ◌∷◌, Bool, true, false, none, some, ◌≡◌}
use asyncplusplus.Task.{
  TaskState, pending, locked, unwrapped, completed, canceled, Exec, root, on_value, on_task,
  forward, event, Task,
}

pub data Command : Type 0 where
  run : (t : ℕ) → Command  -- `vtable->run(t)`
  calling : (t : ℕ) → Command  -- the user's function of `t` is running
  run_finish : (t v : ℕ) → Command  -- `set_result`, `destroy_func`, `finish` up to the store
  finish : (t v : ℕ) → Command  -- `set_result`, `finish` up to the store
  cancel : (t e : ℕ) → Command  -- `cancel` up to the store
  cancel_base : (t e : ℕ) → Command  -- `cancel_base` up to the store
  lock : (t : ℕ) → Command  -- `run_continuations`: before the lock flag is set
  flush : (t : ℕ) → Command  -- before the flush
  deliver : (ts : List ℕ) → Command  -- the continuations yet to be scheduled
  schedule : (c : ℕ) → Command  -- `run_continuation(c)`
  add : (p c : ℕ) → Command  -- `add_continuation`: before the load of the state
  try : (p c : ℕ) → Command  -- before `try_add`
  unwrap : (t child : ℕ) → Command  -- `unwrapped_finish`

-- How a call of the user's function ends.
pub data Outcome : Type 0 where
  value : (v : ℕ) → Outcome
  task : (child : ℕ) → Outcome
  threw : (e : ℕ) → Outcome

-- What stands in an `Option`; 0 for storage without an object.
abbrev pub get_result : Task → ℕ
get_result t = elim t.result [ none ↦ 0 | some v ↦ v ]

abbrev pub get_exception : Task → ℕ
get_exception t = elim t.except [ none ↦ 0 | some e ↦ e ]

-- `set_result` and the store of `finish`.
abbrev pub complete : Task → ℕ → Task
complete t v = record t { state = completed; result = some v }

-- `set_exception` and the store of `cancel_base`.
abbrev pub cancel_with : Task → ℕ → Task
cancel_with t e = record t { state = canceled; except = some e }

abbrev pub destroy_func : Task → Task
destroy_func t = record t { destroyed = suc t.destroyed }

abbrev pub set_unwrapped : Task → Task
set_unwrapped t = destroy_func (record t { state = unwrapped })

-- `~task_func`: a function object that has not been destroyed is.
abbrev pub free_func : Task → TaskState → Task
free_func t pending = destroy_func t
free_func t locked = t
free_func t unwrapped = t
free_func t completed = t
free_func t canceled = t

-- `~task_result`
abbrev pub free_exception : Task → TaskState → Task
free_exception t canceled = record t { except = none }
free_exception t pending = t
free_exception t locked = t
free_exception t unwrapped = t
free_exception t completed = t

-- `~task_result_holder`
abbrev pub free_result : Task → TaskState → Task
free_result t completed = record t { result = none }
free_result t pending = t
free_result t locked = t
free_result t unwrapped = t
free_result t canceled = t

-- `vtable->destroy` of `task_result`, for the object of an `event_task`, and of `task_func`.
abbrev pub destroy_result : Task → Task
destroy_result t = free_result (free_exception t t.state) t.state

abbrev pub destroy : Exec → Task → Task
destroy (root s u) t = destroy_result (free_func t t.state)
destroy (on_value s u p) t = destroy_result (free_func t t.state)
destroy (on_task s u p) t = destroy_result (free_func t t.state)
destroy (forward p c) t = destroy_result (free_func t t.state)
destroy event t = destroy_result t

-- `unwrapped_func::operator()`, by the state of the child.
abbrev pub forward_to : ℕ → Task → TaskState → Command
forward_to p child completed = finish p (get_result child)
forward_to p child pending = cancel_base p (get_exception child)
forward_to p child locked = cancel_base p (get_exception child)
forward_to p child unwrapped = cancel_base p (get_exception child)
forward_to p child canceled = cancel_base p (get_exception child)

-- The test of a value-based continuation for a canceled parent.
abbrev pub unless_canceled : ℕ → Task → TaskState → Command
unless_canceled t parent canceled = cancel t (get_exception parent)
unless_canceled t parent pending = calling t
unless_canceled t parent locked = calling t
unless_canceled t parent unwrapped = calling t
unless_canceled t parent completed = calling t

-- `operator()` of the function object of task `t`, up to the call of the user's function.
abbrev pub dispatch : (ℕ → Task) → ℕ → Exec → List Command
dispatch tasks t (root s u) = calling t ∷ []
dispatch tasks t (on_task s u p) = calling t ∷ []
dispatch tasks t (on_value s u p) = unless_canceled t (tasks p) (tasks p).state ∷ []
dispatch tasks t (forward p c) = forward_to p (tasks c) (tasks c).state ∷ run_finish t 0 ∷ []
dispatch tasks t event = []

-- What follows the call, with the catch block of `run`.
abbrev pub returned : ℕ → Outcome → Command
returned t (value v) = run_finish t v
returned t (task child) = unwrap t child
returned t (threw e) = cancel t e

-- The kind of outcome that the function's type allows.
abbrev pub Allows : Bool → Outcome → Type 0
Allows u (threw e) = Unit
Allows u (value v) = u ≡ false
Allows u (task c) = u ≡ true
