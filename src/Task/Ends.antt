-- ===== src/Task/Ends.antt =====
-- A task that is locked or unwrapped has one command or handle that is to finish it.
use asyncplusplus.Prelude.{
  ℕ, ◌+◌, ◌<◌, ◌≡◌, ◌≢◌, refl, ap, sym, ◌∙◌, List, [], ◌∷◌, none, arith, update,
}
use asyncplusplus.Prelude.Among.{same, same_self}
use asyncplusplus.Prelude.Sum.{sum-append}
use asyncplusplus.Task.{
  TaskState, pending, locked, unwrapped, completed, canceled, keeping, Exec, root, on_value,
  on_task, forward, event, scheduler_of, parent_of, Task,
}
use asyncplusplus.Task.Handlers.{
  Command, dispatch, returned, Outcome, value, task, threw, destroy_func, complete, cancel_with,
  set_unwrapped, forward_to, unless_canceled,
}
use asyncplusplus.Task.System.{
  Turn, start, forward_threw, return, finish_run, finish_base, cancel_run, cancel_only, set_lock,
  flush_all, deliver_next, deliver_done, run_inline, keep, drop, see_finished, see_unfinished,
  added, rejected, unwrap_child, unwrap_threw, work, abandon_handle, spawn, then_, new_event,
  set_value, set_exception, set_fails, set_continuations,
}
use asyncplusplus.Task.Weights.{ends, forwards, wanted_end, of_stack, of_handles}
use asyncplusplus.Task.Balance.{
  wanted, wanted-drop, wanted-gain, wanted-keep, wanted-new_none, vectors-same, vectors-change,
  vectors-new, Balanced,
}
use asyncplusplus.Task.Local.{Local, end_of, holds_start, holds_end, holds_lock, holds_flush}

forward_to-ends :
    (exec : ℕ → Exec) (r p : ℕ) (x : Task) (s : TaskState)
    → of_stack (ends exec r) (forward_to p x s ∷ []) ≡ same r p
forward_to-ends exec r p x pending = omega arith
forward_to-ends exec r p x locked = omega arith
forward_to-ends exec r p x unwrapped = omega arith
forward_to-ends exec r p x completed = omega arith
forward_to-ends exec r p x canceled = omega arith

unless_canceled-ends :
    (exec : ℕ → Exec) (r t : ℕ) (x : Task) (s : TaskState)
    → of_stack (ends exec r) (unless_canceled t x s ∷ []) ≡ 0
unless_canceled-ends exec r t x pending = refl
unless_canceled-ends exec r t x locked = refl
unless_canceled-ends exec r t x unwrapped = refl
unless_canceled-ends exec r t x completed = refl
unless_canceled-ends exec r t x canceled = refl

dispatch-ends :
    (exec : ℕ → Exec) (r t : ℕ) (tasks : ℕ → Task) (ex : Exec)
    → of_stack (ends exec r) (dispatch tasks t ex) ≡ forwards r ex
dispatch-ends exec r t tasks (root s u) = refl
dispatch-ends exec r t tasks (on_task s u p) = refl
dispatch-ends exec r t tasks (on_value s u p) =
    unless_canceled-ends exec r t (tasks p) (tasks p).state
dispatch-ends exec r t tasks (forward p c) =
    omega (arith, forward_to-ends exec r p (tasks c) (tasks c).state)
dispatch-ends exec r t tasks event = refl

returned-ends :
    (exec : ℕ → Exec) (r t : ℕ) (o : Outcome) → of_stack (ends exec r) (returned t o ∷ []) ≡ 0
returned-ends exec r t (value v) = refl
returned-ends exec r t (task c) = refl
returned-ends exec r t (threw e) = refl

-- Only the inline scheduler gets a task that forwards.
keeping-forwards : (r : ℕ) (ex : Exec) → scheduler_of ex ≡ keeping → forwards r ex ≡ 0
keeping-forwards r (root s u) e = refl
keeping-forwards r (on_value s u p) e = refl
keeping-forwards r (on_task s u p) e = refl
keeping-forwards r (forward p c) e = absurd (cc)
keeping-forwards r event e = refl

root-forwards : (r : ℕ) (ex : Exec) → ((p c : ℕ) → ex ≢ forward p c) → forwards r ex ≡ 0
root-forwards r (root s u) ne = refl
root-forwards r (on_value s u p) ne = refl
root-forwards r (on_task s u p) ne = refl
root-forwards r (forward p c) ne = absurd (ne p c refl)
root-forwards r event ne = refl

parentless-forwards : (r : ℕ) (ex : Exec) → parent_of ex ≡ none → forwards r ex ≡ 0
parentless-forwards r (root s u) e = refl
parentless-forwards r (on_value s u p) e = refl
parentless-forwards r (on_task s u p) e = refl
parentless-forwards r (forward p c) e = absurd (cc)
parentless-forwards r event e = refl

module _ (exec : ℕ → Exec) (tasks : ℕ → Task) (next : ℕ) where
  -- A pending task that finishes, and a pending one that will need someone to finish it.
  keep_pending :
      (t r : ℕ) (x : Task)
      → t < next
      → (tasks t).state ≡ pending
      → wanted_end x.state ≡ 0
      → wanted (end_of exec) (update tasks t x) next r ≡ wanted (end_of exec) tasks next r
  keep_pending t r x lt p z =
      wanted-keep (end_of exec) tasks next t x r lt (z ∙ sym (ap wanted_end p))

  gain_pending :
      (t r : ℕ) (x : Task)
      → t < next
      → (tasks t).state ≡ pending
      → wanted_end x.state ≡ 1
      → wanted (end_of exec) (update tasks t x) next r
        ≡ wanted (end_of exec) tasks next r + same r t
  gain_pending t r x lt p z = wanted-gain (end_of exec) tasks next t x r lt (ap wanted_end p) z

module _ (exec : ℕ → Exec) {tasks : ℕ → Task} {next : ℕ} {stack : List Command} where
  pub Turn-ends :
      {before : List Command} {taken : List ℕ} {tasks' : ℕ → Task} {next' : ℕ}
      {after : List Command} {given : List ℕ}
      → Local exec tasks next before taken
      → Turn exec tasks next stack before taken tasks' next' after given
      → (r : ℕ)
      → Balanced (ends exec r) (end_of exec) tasks next before taken tasks' next' after given r
  Turn-ends l (start {t}) r = omega (arith, dispatch-ends exec r t tasks (exec t))
  Turn-ends l (forward_threw {t} e x y) r = omega (arith, ap (forwards r) x)
  Turn-ends l (return {t} o a) r = omega (arith, returned-ends exec r t o)
  Turn-ends l (finish_run {t} {v}) r =
      let (lt, p, f) = holds_start exec l t (omega (arith, same_self t)) in
      let x = destroy_func (complete (tasks t) v) in
      omega (
        arith,
        keep_pending exec tasks next t r x lt p refl,
        vectors-same (ends exec r) tasks next t x refl,
      )
  Turn-ends l (finish_base {t} {v}) r =
      let (lt, e, z, f) = holds_end exec l t (omega (arith, same_self t)) in
      let x = complete (tasks t) v in
      omega (
        arith,
        wanted-drop (end_of exec) tasks next t x r lt e refl,
        vectors-same (ends exec r) tasks next t x refl,
      )
  Turn-ends l (cancel_run {t} {e}) r =
      let (lt, p, f) = holds_start exec l t (omega (arith, same_self t)) in
      let x = destroy_func (cancel_with (tasks t) e) in
      omega (
        arith,
        keep_pending exec tasks next t r x lt p refl,
        vectors-same (ends exec r) tasks next t x refl,
      )
  Turn-ends l (cancel_only {t} {e}) r =
      let (lt, w, z, f) = holds_end exec l t (omega (arith, same_self t)) in
      let x = cancel_with (tasks t) e in
      omega (
        arith,
        wanted-drop (end_of exec) tasks next t x r lt w refl,
        vectors-same (ends exec r) tasks next t x refl,
      )
  Turn-ends l (set_lock {t} {ph} {ts} s) r =
      let (lt, f, p, w) = holds_lock exec l t (omega (arith, same_self t)) in
      let x = set_continuations (tasks t) ph ts in
      omega (
        arith,
        wanted-keep (end_of exec) tasks next t x r lt refl,
        vectors-same (ends exec r) tasks next t x s.2,
      )
  Turn-ends l (flush_all {t} {ph} {ts} s) r =
      let (lt, p, w) = holds_flush exec l t (omega (arith, same_self t)) in
      let x = set_continuations (tasks t) ph ts in
      omega (
        arith,
        wanted-keep (end_of exec) tasks next t x r lt refl,
        vectors-change (ends exec r) tasks next t x lt,
        ap (of_handles (ends exec r)) s.2,
        ap (of_handles (ends exec r)) s.3,
      )
  Turn-ends l deliver_next r = omega arith
  Turn-ends l deliver_done r = omega arith
  Turn-ends l (run_inline e) r = omega arith
  Turn-ends l (keep e) r = omega arith
  Turn-ends l (drop {c} e h) r = omega (arith, keeping-forwards r (exec c) h)
  Turn-ends l (see_finished e) r = omega arith
  Turn-ends l (see_unfinished e) r = omega arith
  Turn-ends l (added {p} {c} {ph} {ts} s) r =
      let lt = l.commands.0.0 in
      let x = set_continuations (tasks p) ph ts in
      omega (
        arith,
        wanted-keep (end_of exec) tasks next p x r lt refl,
        vectors-change (ends exec r) tasks next p x lt,
        ap (of_handles (ends exec r)) s.2,
        sum-append (λ u. forwards r (exec u)) (tasks p).waiting (c ∷ []),
      )
  Turn-ends l (rejected s) r = omega arith
  Turn-ends l (unwrap_child {t} {child} e lc) r =
      let (lt, p, f) = holds_start exec l t (omega (arith, same_self t)) in
      let x = set_unwrapped (tasks t) in
      omega (
        arith,
        gain_pending exec tasks next t r x lt p refl,
        wanted-new_none (end_of exec) (update tasks t x) next r refl,
        vectors-same (ends exec r) tasks next t x refl,
        vectors-new (ends exec r) (update tasks t x) next,
        ap (forwards r) e,
      )
  Turn-ends l (unwrap_threw {t} e) r =
      let (lt, p, f) = holds_start exec l t (omega (arith, same_self t)) in
      let x = set_unwrapped (tasks t) in
      omega (
        arith,
        gain_pending exec tasks next t r x lt p refl,
        vectors-same (ends exec r) tasks next t x refl,
      )
  Turn-ends l (work u) r = omega arith
  Turn-ends l (abandon_handle {t} e u) r = omega (arith, keeping-forwards r (exec t) l.handles.0.0)
  Turn-ends l (spawn u p ne) r = omega (
    arith,
    wanted-new_none (end_of exec) tasks next r refl,
    vectors-new (ends exec r) tasks next,
    parentless-forwards r (exec next) p,
  )
  Turn-ends l (then_ {p} u e ne lt) r = omega (
    arith,
    wanted-new_none (end_of exec) tasks next r refl,
    vectors-new (ends exec r) tasks next,
    root-forwards r (exec next) ne,
  )
  Turn-ends l (new_event u e) r =
      omega (
        arith,
        wanted-new_none (end_of exec) tasks next r refl,
        vectors-new (ends exec r) tasks next,
      )
  Turn-ends l (set_value {t} v u lt e p) r =
      let x = record (tasks t) { state = locked } in
      omega (
        arith,
        gain_pending exec tasks next t r x lt p refl,
        vectors-same (ends exec r) tasks next t x refl,
      )
  Turn-ends l (set_exception {t} y u lt e p) r =
      let x = record (tasks t) { state = locked } in
      omega (
        arith,
        gain_pending exec tasks next t r x lt p refl,
        vectors-same (ends exec r) tasks next t x refl,
      )
  Turn-ends l (set_fails f s u e q ne) r = omega arith
