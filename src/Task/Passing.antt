-- ===== src/Task/Passing.antt =====
-- A task that has finished has one command that is to pass its continuations on, until it has done so.
use asyncplusplus.Prelude.{
  ℕ, ◌+◌, ◌<◌, ◌≡◌, refl, ap, sym, ◌∙◌, List, [], ◌∷◌, false, arith, update,
}
use asyncplusplus.Prelude.Among.{same}
use asyncplusplus.Prelude.Sum.{sum}
use asyncplusplus.Task.{
  TaskState, pending, locked, unwrapped, completed, canceled, is_finished, Exec, root, on_value,
  on_task, forward, event, Task,
}
use asyncplusplus.Task.Handlers.{
  Command, dispatch, returned, Outcome, value, task, threw, forward_to, unless_canceled,
}
use asyncplusplus.Task.System.{}
use asyncplusplus.Task.Weights.{locks, flushes, wanted_lock, wanted_flush, unlocked, of_stack}
use asyncplusplus.Task.Balance.{wanted, wanted-gain, wanted-keep}
use asyncplusplus.Task.Local.{Local, lock_of, flush_of, unfinished-lock}

pub no_handles : (xs : List ℕ) → sum (λ u. 0) xs ≡ 0
no_handles [] = refl
no_handles (x ∷ xs) = omega (arith, no_handles xs)

abbrev pub Neither : ℕ → List Command → Type 0
Neither r cs = (of_stack (locks r) cs ≡ 0) × (of_stack (flushes r) cs ≡ 0)

forward_to-Neither : (r p : ℕ) (x : Task) (s : TaskState) → Neither r (forward_to p x s ∷ [])
forward_to-Neither r p x pending = (refl, refl)
forward_to-Neither r p x locked = (refl, refl)
forward_to-Neither r p x unwrapped = (refl, refl)
forward_to-Neither r p x completed = (refl, refl)
forward_to-Neither r p x canceled = (refl, refl)

unless_canceled-Neither :
    (r t : ℕ) (x : Task) (s : TaskState) → Neither r (unless_canceled t x s ∷ [])
unless_canceled-Neither r t x pending = (refl, refl)
unless_canceled-Neither r t x locked = (refl, refl)
unless_canceled-Neither r t x unwrapped = (refl, refl)
unless_canceled-Neither r t x completed = (refl, refl)
unless_canceled-Neither r t x canceled = (refl, refl)

pub dispatch-Neither : (r t : ℕ) (tasks : ℕ → Task) (ex : Exec) → Neither r (dispatch tasks t ex)
dispatch-Neither r t tasks (root s u) = (refl, refl)
dispatch-Neither r t tasks (on_task s u p) = (refl, refl)
dispatch-Neither r t tasks (on_value s u p) = unless_canceled-Neither r t (tasks p) (tasks p).state
dispatch-Neither r t tasks (forward p c) =
    let n = forward_to-Neither r p (tasks c) (tasks c).state in omega (arith, n)
dispatch-Neither r t tasks event = (refl, refl)

pub returned-Neither : (r t : ℕ) (o : Outcome) → Neither r (returned t o ∷ [])
returned-Neither r t (value v) = (refl, refl)
returned-Neither r t (task c) = (refl, refl)
returned-Neither r t (threw e) = (refl, refl)

pub pending-unfinished : {s : TaskState} → s ≡ pending → is_finished s ≡ false
unfolding is_finished
pending-unfinished e = ap is_finished e

module _ (exec : ℕ → Exec) {tasks : ℕ → Task} {next : ℕ} {before : List Command} {taken : List ℕ}
    (l : Local exec tasks next before taken) (t : ℕ) (x : Task) (lt : t < next) where
  -- A task that finishes has yet to lock its continuations.
  pub gain_lock :
      (r : ℕ)
      → is_finished (tasks t).state ≡ false
      → wanted_lock x.state x.phase ≡ unlocked (tasks t).phase
      → wanted (lock_of exec) (update tasks t x) next r
        ≡ wanted (lock_of exec) tasks next r + same r t
  gain_lock r f e =
      wanted-gain (lock_of exec) tasks next t x r lt
        (unfinished-lock (tasks t).state (tasks t).phase f) (e ∙ ap unlocked (l.plain t f))

  pub keep_lock :
      (r : ℕ)
      → is_finished (tasks t).state ≡ false
      → is_finished x.state ≡ false
      → wanted (lock_of exec) (update tasks t x) next r ≡ wanted (lock_of exec) tasks next r
  keep_lock r f f' =
      wanted-keep (lock_of exec) tasks next t x r lt (
        unfinished-lock x.state x.phase f'
        ∙ sym (unfinished-lock (tasks t).state (tasks t).phase f))

  pub keep_flush :
      (r : ℕ)
      → x.phase ≡ (tasks t).phase
      → wanted (flush_of exec) (update tasks t x) next r ≡ wanted (flush_of exec) tasks next r
  keep_flush r e = wanted-keep (flush_of exec) tasks next t x r lt (ap wanted_flush e)
