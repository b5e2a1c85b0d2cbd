-- ===== src/Task/Local.antt =====
-- What a thread that takes a turn may rely on.
use asyncplusplus.Prelude.{
  ℕ, ◌+◌, ◌≤◌, ◌<◌, ◌≡◌, refl, List, [], Bool, true, false, none, some, arith, Every,
}
use asyncplusplus.ContinuationVector.Contract.{Phase, accepting, closing, closed}
use asyncplusplus.Task.{
  TaskState, pending, locked, unwrapped, completed, canceled, is_finished, Scheduler, keeping, Exec,
  root, on_value, on_task, forward, event, scheduler_of, parent_of, Task,
}
use asyncplusplus.Task.Handlers.{
  Command, run, calling, run_finish, finish, cancel, cancel_base, lock, flush, deliver, schedule,
  add, try, unwrap,
}
use asyncplusplus.Task.Weights.{
  starts, ends, locks, flushes, of_stack, of_handles, has_function, wanted_start, wanted_end,
  wanted_lock, wanted_flush,
}
use asyncplusplus.Task.Balance.{wanted, wanted-positive}

-- What is stored in a task, by its state: the function object is destroyed once, and a result or
-- an exception is there exactly when the state says so.
abbrev pub Empty : Task → Type 0
Empty x = (x.result ≡ none) × (x.except ≡ none)

abbrev pub StateOk : Exec → Task → TaskState → Type 0
StateOk ex x pending = (x.phase ≡ accepting) × (x.destroyed ≡ 0) × Empty x
StateOk ex x locked = (x.phase ≡ accepting) × (x.destroyed ≡ 0) × (has_function ex ≡ 0) × Empty x
StateOk ex x unwrapped = (x.phase ≡ accepting) × (x.destroyed ≡ 1) × (has_function ex ≡ 1) × Empty x
StateOk ex x completed =
    (x.destroyed ≡ has_function ex) × ((v : ℕ) × (x.result ≡ some v)) × (x.except ≡ none)
StateOk ex x canceled =
    (x.destroyed ≡ has_function ex) × ((e : ℕ) × (x.except ≡ some e)) × (x.result ≡ none)

module _ (exec : ℕ → Exec) where
  abbrev pub start_of : ℕ → Task → ℕ
  start_of t x = wanted_start (exec t) x.state

  abbrev pub end_of : ℕ → Task → ℕ
  end_of t x = wanted_end x.state

  abbrev pub lock_of : ℕ → Task → ℕ
  lock_of t x = wanted_lock x.state x.phase

  abbrev pub flush_of : ℕ → Task → ℕ
  flush_of t x = wanted_flush x.phase

  -- A task that has not finished has not locked its continuations.
  abbrev pub Plain : (ℕ → Task) → Type 0
  Plain tasks = (t : ℕ) → is_finished (tasks t).state ≡ false → (tasks t).phase ≡ accepting

  -- The task that a continuation is added to has finished.
  abbrev pub ParentDone : (ℕ → Task) → ℕ → Type 0
  ParentDone tasks c = (p : ℕ) → parent_of (exec c) ≡ some p → is_finished (tasks p).state ≡ true

  -- The task that a value-based continuation is added to has a result.
  abbrev pub ParentCompleted : (ℕ → Task) → ℕ → Type 0
  ParentCompleted tasks c =
      (s : Scheduler) (u : Bool) (p : ℕ) → exec c ≡ on_value s u p → (tasks p).state ≡ completed

  -- A continuation is only scheduled, run or called when its parent has finished; until then it is
  -- on its way to that parent.
  abbrev pub CommandOk : (ℕ → Task) → ℕ → Command → Type 0
  CommandOk tasks next (run c) = ParentDone tasks c
  CommandOk tasks next (calling c) = ParentDone tasks c × ParentCompleted tasks c
  CommandOk tasks next (run_finish c v) = Unit
  CommandOk tasks next (finish t v) = Unit
  CommandOk tasks next (cancel t e) = Unit
  CommandOk tasks next (cancel_base t e) = Unit
  CommandOk tasks next (lock t) = Unit
  CommandOk tasks next (flush t) = Unit
  CommandOk tasks next (deliver cs) = Every (ParentDone tasks) cs
  CommandOk tasks next (schedule c) = ParentDone tasks c
  CommandOk tasks next (add p c) = (p < next) × (parent_of (exec c) ≡ some p)
  CommandOk tasks next (try p c) = (p < next) × (parent_of (exec c) ≡ some p)
  CommandOk tasks next (unwrap t c) = Unit

  abbrev pub HandleOk : (ℕ → Task) → ℕ → Type 0
  HandleOk tasks c = (scheduler_of (exec c) ≡ keeping) × ParentDone tasks c

  abbrev pub TaskOk : ℕ → Task → Type 0
  TaskOk t x = StateOk (exec t) x x.state

  -- A continuation vector holds continuations of its task, and none once it is flushed.
  abbrev pub VectorOk : ℕ → Task → Type 0
  VectorOk p x =
      Every (λ c. parent_of (exec c) ≡ some p) x.waiting × (x.phase ≡ closed → x.waiting ≡ [])

  abbrev pub WaitingOk : (ℕ → Task) → Type 0
  WaitingOk tasks = (p : ℕ) → VectorOk p (tasks p)

  -- The turn's commands and handles are within what is wanted.
  pub record Local (tasks : ℕ → Task) (next : ℕ) (before : List Command) (taken : List ℕ)
      : Type 0 where
    pub start_le :
        (t : ℕ)
        → of_stack (starts t) before + of_handles (starts t) taken ≤ wanted start_of tasks next t
    pub end_le :
        (t : ℕ)
        → of_stack (ends exec t) before + of_handles (ends exec t) taken
          ≤ wanted end_of tasks next t
    pub lock_le : (t : ℕ) → of_stack (locks t) before ≤ wanted lock_of tasks next t
    pub flush_le : (t : ℕ) → of_stack (flushes t) before ≤ wanted flush_of tasks next t
    pub plain : Plain tasks
    pub good : (t : ℕ) → TaskOk t (tasks t)
    pub fresh : (t : ℕ) → next ≤ t → is_finished (tasks t).state ≡ false
    pub waits : WaitingOk tasks
    pub commands : Every (CommandOk tasks next) before
    pub handles : Every (HandleOk tasks) taken

-- The states by what is wanted in them.
start_state :
    (ex : Exec) (s : TaskState) → 0 < wanted_start ex s → (s ≡ pending) × (has_function ex ≡ 1)
start_state (root sc u) pending h = (refl, refl)
start_state (on_value sc u p) pending h = (refl, refl)
start_state (on_task sc u p) pending h = (refl, refl)
start_state (forward p c) pending h = (refl, refl)
start_state event pending h = absurd (omega arith)
start_state ex locked h = absurd (omega arith)
start_state ex unwrapped h = absurd (omega arith)
start_state ex completed h = absurd (omega arith)
start_state ex canceled h = absurd (omega arith)

pub end_state :
    (ex : Exec) (s : TaskState)
    → 0 < wanted_end s
    → (wanted_end s ≡ 1) × (wanted_start ex s ≡ 0) × (is_finished s ≡ false)
unfolding is_finished
end_state ex pending h = absurd (omega arith)
end_state ex locked h = (refl, refl, refl)
end_state ex unwrapped h = (refl, refl, refl)
end_state ex completed h = absurd (omega arith)
end_state ex canceled h = absurd (omega arith)

pub unfinished-lock : (s : TaskState) (ph : Phase) → is_finished s ≡ false → wanted_lock s ph ≡ 0
unfolding is_finished
unfinished-lock pending ph e = refl
unfinished-lock locked ph e = refl
unfinished-lock unwrapped ph e = refl
unfinished-lock completed ph e = absurd cc
unfinished-lock canceled ph e = absurd cc

pub lock_state :
    (s : TaskState) (ph : Phase)
    → 0 < wanted_lock s ph
    → (is_finished s ≡ true) × (ph ≡ accepting) × (wanted_lock s ph ≡ 1)
unfolding is_finished
lock_state pending ph h = absurd (omega arith)
lock_state locked ph h = absurd (omega arith)
lock_state unwrapped ph h = absurd (omega arith)
lock_state completed accepting h = (refl, refl, refl)
lock_state completed closing h = absurd (omega arith)
lock_state completed closed h = absurd (omega arith)
lock_state canceled accepting h = (refl, refl, refl)
lock_state canceled closing h = absurd (omega arith)
lock_state canceled closed h = absurd (omega arith)

pub flush_state : (ph : Phase) → 0 < wanted_flush ph → (ph ≡ closing) × (wanted_flush ph ≡ 1)
flush_state accepting h = absurd (omega arith)
flush_state closing h = (refl, refl)
flush_state closed h = absurd (omega arith)

module _ (exec : ℕ → Exec) {tasks : ℕ → Task} {next : ℕ} {before : List Command} {taken : List ℕ}
    (l : Local exec tasks next before taken) where
  -- A task that the turn holds for a start is made and pending, and has a function.
  pub holds_start :
      (t : ℕ)
      → 0 < of_stack (starts t) before + of_handles (starts t) taken
      → (t < next) × ((tasks t).state ≡ pending) × (has_function (exec t) ≡ 1)
  holds_start t pos =
      let (lt, w) = wanted-positive (start_of exec) tasks next t (omega (arith, l.start_le t)) in
      let (p, f) = start_state (exec t) (tasks t).state w in (lt, p, f)

  pub holds_end :
      (t : ℕ)
      → 0 < of_stack (ends exec t) before + of_handles (ends exec t) taken
      → (t < next)
        × (wanted_end (tasks t).state ≡ 1)
        × (wanted_start (exec t) (tasks t).state ≡ 0)
        × (is_finished (tasks t).state ≡ false)
  holds_end t pos =
      let (lt, w) = wanted-positive (end_of exec) tasks next t (omega (arith, l.end_le t)) in
      let (e, s, f) = end_state (exec t) (tasks t).state w in (lt, e, s, f)

  pub holds_lock :
      (t : ℕ)
      → 0 < of_stack (locks t) before
      → (t < next)
        × (is_finished (tasks t).state ≡ true)
        × ((tasks t).phase ≡ accepting)
        × (wanted_lock (tasks t).state (tasks t).phase ≡ 1)
  holds_lock t pos =
      let (lt, w) = wanted-positive (lock_of exec) tasks next t (omega (arith, l.lock_le t)) in
      let (f, p, e) = lock_state (tasks t).state (tasks t).phase w in (lt, f, p, e)

  pub holds_flush :
      (t : ℕ)
      → 0 < of_stack (flushes t) before
      → (t < next) × ((tasks t).phase ≡ closing) × (wanted_flush (tasks t).phase ≡ 1)
  holds_flush t pos =
      let (lt, w) = wanted-positive (flush_of exec) tasks next t (omega (arith, l.flush_le t)) in
      let (p, e) = flush_state (tasks t).phase w in (lt, p, e)
