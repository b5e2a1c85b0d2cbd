-- ===== src/Task/System.antt =====
-- Threads that run tasks, interleaved in any order.
use asyncplusplus.Prelude.{
  ◌⊎◌, inl, ℕ, suc, ◌<◌, ◌≡◌, ◌≢◌, List, [], ◌∷◌, ◌++◌, true, false, none, some, update, replicate,
}
use asyncplusplus.ContinuationVector.Contract.{Phase, Event, Spec}
use asyncplusplus.Task.{
  TaskState, pending, completed, is_finished, inline_, keeping, Exec, forward, event, scheduler_of,
  unwraps, parent_of, Task, new_task,
}
use asyncplusplus.Task.Operations.{
  spawn_task, then_internal, basic_event, set_internal_with, set_exception_with, run_handle,
  destroy_handle,
}
use asyncplusplus.Task.Handlers.{
  Command, run, calling, run_finish, finish, cancel, cancel_base, lock, flush, deliver, schedule,
  add, try, unwrap, Outcome, complete, cancel_with, destroy_func, set_unwrapped, dispatch, returned,
  Allows,
}

-- Where a thread does what the user's code says: outside of all tasks, or in a task's function.
pub data UserCode : List Command → Type 0 where
  outside : UserCode []
  within : {t : ℕ} {stack : List Command} → UserCode (calling t ∷ stack)

-- The continuation vector of a task, after an event of its contract.
abbrev pub set_continuations : Task → Phase → List ℕ → Task
set_continuations t ph ts = record t { phase = ph; waiting = ts }

-- A turn of a thread whose stack, below `before`, is `stack`: it does the commands of `before`,
-- which gives it those of `after` to do. It takes the handles `taken` from the schedulers and gives
-- them `given`. `exec` says with which function the object at an address is created.
module _ (exec : ℕ → Exec) (tasks : ℕ → Task) (next : ℕ) (stack : List Command) where
  pub data Turn : List Command → List ℕ → (ℕ → Task) → ℕ → List Command → List ℕ → Type 0 where
    start : {t : ℕ} → Turn (run t ∷ []) [] tasks next (dispatch tasks t (exec t)) []
    -- The copy of the child's result throws.
    forward_threw :
        {t p c : ℕ} (e : ℕ)
        → exec t ≡ forward p c
        → (tasks c).state ≡ completed
        → Turn (run t ∷ []) [] tasks next (cancel_base p e ∷ run_finish t 0 ∷ []) []
    return :
        {t : ℕ} (o : Outcome)
        → Allows (unwraps (exec t)) o
        → Turn (calling t ∷ []) [] tasks next (returned t o ∷ []) []
    finish_run :
        {t v : ℕ}
        → Turn
            (run_finish t v ∷ [])
            []
            (update tasks t (destroy_func (complete (tasks t) v)))
            next
            (lock t ∷ [])
            []
    finish_base :
        {t v : ℕ}
        → Turn (finish t v ∷ []) [] (update tasks t (complete (tasks t) v)) next (lock t ∷ []) []
    cancel_run :
        {t e : ℕ}
        → Turn
            (cancel t e ∷ [])
            []
            (update tasks t (destroy_func (cancel_with (tasks t) e)))
            next
            (lock t ∷ [])
            []
    cancel_only :
        {t e : ℕ}
        → Turn
            (cancel_base t e ∷ [])
            []
            (update tasks t (cancel_with (tasks t) e))
            next
            (lock t ∷ [])
            []
    set_lock :
        {t : ℕ} {ph : Phase} {ts : List ℕ}
        → Spec (tasks t).phase (tasks t).waiting Event.locked ph ts
        → Turn
            (lock t ∷ [])
            []
            (update tasks t (set_continuations (tasks t) ph ts))
            next
            (flush t ∷ [])
            []
    flush_all :
        {t : ℕ} {ph : Phase} {ts flushed : List ℕ}
        → Spec (tasks t).phase (tasks t).waiting (Event.flushed flushed) ph ts
        → Turn
            (flush t ∷ [])
            []
            (update tasks t (set_continuations (tasks t) ph ts))
            next
            (deliver flushed ∷ [])
            []
    deliver_next :
        {c : ℕ} {ts : List ℕ}
        → Turn (deliver (c ∷ ts) ∷ []) [] tasks next (schedule c ∷ deliver ts ∷ []) []
    deliver_done : Turn (deliver [] ∷ []) [] tasks next [] []
    -- `schedule` runs the task at once, keeps its handle, or destroys it.
    run_inline :
        {c : ℕ}
        → scheduler_of (exec c) ≡ inline_
        → Turn (schedule c ∷ []) [] tasks next (run_handle c ∷ []) []
    keep :
        {c : ℕ} → scheduler_of (exec c) ≡ keeping → Turn (schedule c ∷ []) [] tasks next [] (c ∷ [])
    drop :
        {c : ℕ} (e : ℕ)
        → scheduler_of (exec c) ≡ keeping
        → Turn (schedule c ∷ []) [] tasks next (destroy_handle c e ∷ []) []
    see_finished :
        {p c : ℕ}
        → is_finished (tasks p).state ≡ true
        → Turn (add p c ∷ []) [] tasks next (schedule c ∷ []) []
    see_unfinished :
        {p c : ℕ}
        → is_finished (tasks p).state ≡ false
        → Turn (add p c ∷ []) [] tasks next (try p c ∷ []) []
    added :
        {p c : ℕ} {ph : Phase} {ts : List ℕ}
        → Spec (tasks p).phase (tasks p).waiting (Event.added c) ph ts
        → Turn (try p c ∷ []) [] (update tasks p (set_continuations (tasks p) ph ts)) next [] []
    rejected :
        {p c : ℕ} {ph : Phase} {ts : List ℕ}
        → Spec (tasks p).phase (tasks p).waiting (Event.rejected c) ph ts
        → Turn (try p c ∷ []) [] tasks next (schedule c ∷ []) []
    unwrap_child :
        {t child : ℕ}
        → exec next ≡ forward t child
        → child < next
        → Turn
            (unwrap t child ∷ [])
            []
            (update (update tasks t (set_unwrapped (tasks t))) next new_task)
            (suc next)
            (add child next ∷ [])
            []
    unwrap_threw :
        {t child : ℕ} (e : ℕ)
        → Turn
            (unwrap t child ∷ [])
            []
            (update tasks t (set_unwrapped (tasks t)))
            next
            (cancel_base t e ∷ [])
            []
    -- A thread that is outside of tasks or waits in one takes a task from a scheduler.
    work : {t : ℕ} → UserCode stack → Turn [] (t ∷ []) tasks next (run_handle t ∷ []) []
    -- A handle is destroyed before it was run.
    abandon_handle :
        {t : ℕ} (e : ℕ) → UserCode stack → Turn [] (t ∷ []) tasks next (destroy_handle t e ∷ []) []
    -- `spawn`
    spawn :
        UserCode stack
        → parent_of (exec next) ≡ none
        → exec next ≢ event
        → Turn [] []
            (spawn_task tasks next).tasks
            (spawn_task tasks next).next
            (spawn_task tasks next).commands
            []
    -- `then`
    then_ :
        {p : ℕ}
        → UserCode stack
        → parent_of (exec next) ≡ some p
        → ((q c : ℕ) → exec next ≢ forward q c)
        → p < next
        → Turn [] []
            (then_internal tasks next p).tasks
            (then_internal tasks next p).next
            (then_internal tasks next p).commands
            []
    -- `event_task`'s constructor
    new_event :
        UserCode stack
        → exec next ≡ event
        → Turn [] []
            (basic_event tasks next).tasks
            (basic_event tasks next).next
            (basic_event tasks next).commands
            []
    -- `set` with a value that is stored, or whose copy throws; `set_exception`
    set_value :
        {t : ℕ} (v : ℕ)
        → UserCode stack
        → t < next
        → exec t ≡ event
        → (tasks t).state ≡ pending
        → Turn [] []
            (set_internal_with tasks next t (inl v) pending).tasks
            (set_internal_with tasks next t (inl v) pending).next
            (set_internal_with tasks next t (inl v) pending).commands
            []
    set_exception :
        {t : ℕ} (e : ℕ)
        → UserCode stack
        → t < next
        → exec t ≡ event
        → (tasks t).state ≡ pending
        → Turn [] []
            (set_exception_with tasks next t e pending).tasks
            (set_exception_with tasks next t e pending).next
            (set_exception_with tasks next t e pending).commands
            []
    -- `set` or `set_exception` of an event that another call has set.
    set_fails :
        {t : ℕ} (f : ℕ ⊎ ℕ) (s : TaskState)
        → UserCode stack
        → exec t ≡ event
        → (tasks t).state ≡ s
        → s ≢ pending
        → Turn [] [] tasks next [] []

pub record World : Type 0 where
  pub tasks : ℕ → Task
  pub next : ℕ  -- the objects made so far have the addresses below
  pub threads : List (List Command)
  pub pool : List ℕ  -- the handles that the schedulers keep

-- Some thread takes a turn.
pub data Step (exec : ℕ → Exec) (w : World) : World → Type 0 where
  turn :
      (left right : List (List Command)) (kept kept' : List ℕ) {before stack after : List Command}
      {taken given : List ℕ} {tasks : ℕ → Task} {next : ℕ}
      → w.threads ≡ left ++ ((before ++ stack) ∷ right)
      → w.pool ≡ kept ++ (taken ++ kept')
      → Turn exec w.tasks w.next stack before taken tasks next after given
      → Step exec w (record {
        tasks = tasks;
        next = next;
        threads = left ++ ((after ++ stack) ∷ right);
        pool = kept ++ (given ++ kept');
      })

-- `threads` threads, and no task yet.
abbrev pub init : List (List Command) → World
init threads = record { tasks = λ _. new_task; next = 0; threads = threads; pool = [] }

pub data Reach (exec : ℕ → Exec) (n : ℕ) : World → Type 0 where
  begin : Reach exec n (init (replicate n []))
  later : {w w' : World} → Reach exec n w → Step exec w w' → Reach exec n w'
