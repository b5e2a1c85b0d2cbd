-- ===== src/Task/Results.antt =====
-- What the users of a task may rely on: its outcome stays, and its function is called in time.
use asyncplusplus.Prelude.{
  ℕ, ◌≡◌, refl, sym, List, ◌∷◌, ◌++◌, Bool, true, some, arith, Every, Every-back,
}
use mathlib.Core.Path.{subst}
use asyncplusplus.Task.{
  TaskState, pending, locked, unwrapped, completed, canceled, is_finished, Scheduler, Exec, root,
  on_value, on_task, forward, event, parent_of, Task,
}
use asyncplusplus.Task.Handlers.{
  Command, calling, destroy, destroy_result, free_func, free_exception, free_result,
}
use asyncplusplus.Task.System.{World, Step, Reach, later}
use asyncplusplus.Task.Weights.{has_function}
use asyncplusplus.Task.Local.{Empty, StateOk, CommandOk}
use asyncplusplus.Task.Kept.{Kept}
use asyncplusplus.Task.Safety.{Reach-Inv}

-- Any number of steps.
pub data Steps (exec : ℕ → Exec) (w : World) : World → Type 0 where
  stay : Steps exec w w
  onward : {w' w'' : World} → Steps exec w w' → Step exec w' w'' → Steps exec w w''

module _ (exec : ℕ → Exec) (n : ℕ) where
  pub Reach-Steps : {w w' : World} → Reach exec n w → Steps exec w w' → Reach exec n w'
  Reach-Steps r stay = r
  Reach-Steps r (onward s t) = later (Reach-Steps r s) t

abbrev pub Freed : Exec → Task → Type 0
Freed ex x = (x.destroyed ≡ has_function ex) × Empty x

abbrev FreeOf : Exec → Task → TaskState → Type 0
FreeOf ex x s = Freed ex (free_result (free_exception (free_func x s) s) s)

func_free :
    (x : Task) (ex : Exec) (s : TaskState) → has_function ex ≡ 1 → StateOk ex x s → FreeOf ex x s
func_free x ex pending f h = (omega (arith, h.1), h.2)
func_free x ex locked f h = absurd (omega (arith, h.2))
func_free x ex unwrapped f h = (omega (arith, h.1), h.3)
func_free x ex completed f h = (h.0, (refl, h.2))
func_free x ex canceled f h = (h.0, (h.2, refl))

event_free :
    (x : Task) (s : TaskState)
    → StateOk event x s
    → Freed event (free_result (free_exception x s) s)
event_free x pending h = (h.1, h.2)
event_free x locked h = (h.1, h.3)
event_free x unwrapped h = absurd (omega (arith, h.2))
event_free x completed h = (h.0, (refl, h.2))
event_free x canceled h = (h.0, (h.2, refl))

free_func-state : (x : Task) (s : TaskState) → (free_func x s).state ≡ x.state
free_func-state x pending = refl
free_func-state x locked = refl
free_func-state x unwrapped = refl
free_func-state x completed = refl
free_func-state x canceled = refl

func_destroy :
    (x : Task) (ex : Exec)
    → has_function ex ≡ 1
    → StateOk ex x x.state
    → Freed ex (destroy_result (free_func x x.state))
func_destroy x ex f h =
    subst (λ s. Freed ex (free_result (free_exception (free_func x x.state) s) s))
      (sym (free_func-state x x.state)) (func_free x ex x.state f h)

free : (x : Task) (ex : Exec) → StateOk ex x x.state → Freed ex (destroy ex x)
free x (root s u) h = func_destroy x (root s u) refl h
free x (on_value s u p) h = func_destroy x (on_value s u p) refl h
free x (on_task s u p) h = func_destroy x (on_task s u p) refl h
free x (forward p c) h = func_destroy x (forward p c) refl h
free x event h = event_free x x.state h

-- Whenever a task object is deleted in a run, its destructors leave a function object destroyed
-- exactly once, and neither a result nor an exception alive.
pub destroy-Freed :
    (exec : ℕ → Exec) (n : ℕ) {w : World} (t : ℕ)
    → Reach exec n w
    → Freed (exec t) (destroy (exec t) (w.tasks t))
destroy-Freed exec n {w} t r = free (w.tasks t) (exec t) ((Reach-Inv exec n r).sound.good t)

-- The function of a continuation is called only when its parent has finished, and that of a
-- value-based one only when its parent has completed, with a result to pass on.
pub called_in_time :
    (exec : ℕ → Exec) (n : ℕ) {w : World} (left right : List (List Command)) (c p : ℕ)
    (stack : List Command)
    → Reach exec n w
    → w.threads ≡ left ++ ((calling c ∷ stack) ∷ right)
    → parent_of (exec c) ≡ some p
    → (is_finished (w.tasks p).state ≡ true)
      × ((s : Scheduler) (u : Bool)
          → exec c ≡ on_value s u p
          → (v : ℕ) × ((w.tasks p).result ≡ some v))
called_in_time exec n {w} left right c p stack r e q =
    let v = Reach-Inv exec n r in
    let all =
      Every-back (Every (CommandOk exec w.tasks w.next)) left ((calling c ∷ stack) ∷ right)
        (subst (Every (Every (CommandOk exec w.tasks w.next))) e v.commands) in
    (
      all.0.0.0 p q,
      λ s u z. (subst (StateOk (exec p) (w.tasks p)) (all.0.0.1 s u p z) (v.sound.good p)).1,
    )
