-- ===== src/Task/Starts.antt =====
-- A task that has not started, or whose function has yet to return, has one holder.
use asyncplusplus.Prelude.{
  ℕ, ◌+◌, ◌<◌, ◌≡◌, ◌≢◌, refl, ap, ap₂, sym, ◌∙◌, List, [], ◌∷◌, some, arith, update,
}
use asyncplusplus.Prelude.Among.{same, same_self}
use asyncplusplus.Prelude.Sum.{sum, sum-append}
use asyncplusplus.Task.{
  TaskState, pending, locked, unwrapped, completed, canceled, Exec, root, on_value, on_task,
  forward, event, parent_of, Task,
}
use asyncplusplus.Task.Handlers.{
  Command, dispatch, returned, Outcome, value, task, threw, destroy_func, complete, cancel_with,
  set_unwrapped, forward_to, unless_canceled,
}
use asyncplusplus.Task.System.{
  Turn, start, forward_threw, return, finish_run, finish_base, cancel_run, cancel_only, set_lock,
  flush_all, deliver_next, deliver_done, run_inline, keep, drop, see_finished, see_unfinished,
  added, rejected, unwrap_child, unwrap_threw, work, abandon_handle, spawn, then_, new_event,
  set_value, set_exception, set_fails, set_continuations,
}
use asyncplusplus.Task.Weights.{starts, of_stack, has_function, wanted_start}
use asyncplusplus.Task.Balance.{
  wanted, wanted-drop, wanted-keep, wanted-new_one, wanted-new_none, vectors-same, vectors-change,
  vectors-new, Balanced,
}
use asyncplusplus.Task.Local.{Local, start_of, holds_start, holds_end, holds_lock, holds_flush}

forward_to-starts :
    (r p : ℕ) (x : Task) (s : TaskState) → of_stack (starts r) (forward_to p x s ∷ []) ≡ 0
forward_to-starts r p x pending = refl
forward_to-starts r p x locked = refl
forward_to-starts r p x unwrapped = refl
forward_to-starts r p x completed = refl
forward_to-starts r p x canceled = refl

unless_canceled-starts :
    (r t : ℕ) (x : Task) (s : TaskState)
    → of_stack (starts r) (unless_canceled t x s ∷ []) ≡ same r t
unless_canceled-starts r t x pending = omega arith
unless_canceled-starts r t x locked = omega arith
unless_canceled-starts r t x unwrapped = omega arith
unless_canceled-starts r t x completed = omega arith
unless_canceled-starts r t x canceled = omega arith

dispatch-starts :
    (r t : ℕ) (tasks : ℕ → Task) (ex : Exec)
    → has_function ex ≡ 1
    → of_stack (starts r) (dispatch tasks t ex) ≡ same r t
dispatch-starts r t tasks (root s u) h = omega arith
dispatch-starts r t tasks (on_task s u p) h = omega arith
dispatch-starts r t tasks (on_value s u p) h = unless_canceled-starts r t (tasks p) (tasks p).state
dispatch-starts r t tasks (forward p c) h =
    omega (arith, forward_to-starts r p (tasks c) (tasks c).state)
dispatch-starts r t tasks event h = absurd (omega arith)

returned-starts : (r t : ℕ) (o : Outcome) → of_stack (starts r) (returned t o ∷ []) ≡ same r t
returned-starts r t (value v) = omega arith
returned-starts r t (task c) = omega arith
returned-starts r t (threw e) = omega arith

pub function_of : (ex : Exec) → ex ≢ event → has_function ex ≡ 1
function_of (root s u) ne = refl
function_of (on_value s u p) ne = refl
function_of (on_task s u p) ne = refl
function_of (forward p c) ne = refl
function_of event ne = absurd (ne refl)

pub parent-has_function : (ex : Exec) (p : ℕ) → parent_of ex ≡ some p → has_function ex ≡ 1
parent-has_function (root s u) p e = absurd (cc)
parent-has_function (on_value s u q) p e = refl
parent-has_function (on_task s u q) p e = refl
parent-has_function (forward q c) p e = refl
parent-has_function event p e = absurd (cc)

module _ (exec : ℕ → Exec) (tasks : ℕ → Task) (next : ℕ) where
  -- A turn that finishes a pending task.
  drop_pending :
      (t r : ℕ) (x : Task)
      → t < next
      → (tasks t).state ≡ pending
      → has_function (exec t) ≡ 1
      → wanted_start (exec t) x.state ≡ 0
      → wanted (start_of exec) (update tasks t x) next r + same r t
        ≡ wanted (start_of exec) tasks next r
  drop_pending t r x lt p f z =
      wanted-drop (start_of exec) tasks next t x r lt (ap (wanted_start (exec t)) p ∙ f) z

event_start : {ex : Exec} {s : TaskState} → ex ≡ event → s ≡ pending → wanted_start ex s ≡ 0
event_start e p = ap₂ wanted_start e p

module _ (exec : ℕ → Exec) {tasks : ℕ → Task} {next : ℕ} {stack : List Command} where
  pub Turn-starts :
      {before : List Command} {taken : List ℕ} {tasks' : ℕ → Task} {next' : ℕ}
      {after : List Command} {given : List ℕ}
      → Local exec tasks next before taken
      → Turn exec tasks next stack before taken tasks' next' after given
      → (r : ℕ)
      → Balanced (starts r) (start_of exec) tasks next before taken tasks' next' after given r
  Turn-starts l (start {t}) r =
      let (lt, p, f) = holds_start exec l t (omega (arith, same_self t)) in
      omega (arith, dispatch-starts r t tasks (exec t) f)
  Turn-starts l (forward_threw {t} e x y) r = omega arith
  Turn-starts l (return {t} o a) r = omega (arith, returned-starts r t o)
  Turn-starts l (finish_run {t} {v}) r =
      let (lt, p, f) = holds_start exec l t (omega (arith, same_self t)) in
      let x = destroy_func (complete (tasks t) v) in
      omega (
        arith,
        drop_pending exec tasks next t r x lt p f refl,
        vectors-same (starts r) tasks next t x refl,
      )
  Turn-starts l (finish_base {t} {v}) r =
      let (lt, e, z, f) = holds_end exec l t (omega (arith, same_self t)) in
      let x = complete (tasks t) v in
      omega (
        arith,
        wanted-keep (start_of exec) tasks next t x r lt (sym z),
        vectors-same (starts r) tasks next t x refl,
      )
  Turn-starts l (cancel_run {t} {e}) r =
      let (lt, p, f) = holds_start exec l t (omega (arith, same_self t)) in
      let x = destroy_func (cancel_with (tasks t) e) in
      omega (
        arith,
        drop_pending exec tasks next t r x lt p f refl,
        vectors-same (starts r) tasks next t x refl,
      )
  Turn-starts l (cancel_only {t} {e}) r =
      let (lt, w, z, f) = holds_end exec l t (omega (arith, same_self t)) in
      let x = cancel_with (tasks t) e in
      omega (
        arith,
        wanted-keep (start_of exec) tasks next t x r lt (sym z),
        vectors-same (starts r) tasks next t x refl,
      )
  Turn-starts l (set_lock {t} {ph} {ts} s) r =
      let (lt, f, p, w) = holds_lock exec l t (omega (arith, same_self t)) in
      let x = set_continuations (tasks t) ph ts in
      omega (
        arith,
        wanted-keep (start_of exec) tasks next t x r lt refl,
        vectors-same (starts r) tasks next t x s.2,
      )
  Turn-starts l (flush_all {t} {ph} {ts} s) r =
      let (lt, p, w) = holds_flush exec l t (omega (arith, same_self t)) in
      let x = set_continuations (tasks t) ph ts in
      omega (
        arith,
        wanted-keep (start_of exec) tasks next t x r lt refl,
        vectors-change (starts r) tasks next t x lt,
        ap (sum (same r)) s.2,
        ap (sum (same r)) s.3,
      )
  Turn-starts l deliver_next r = omega arith
  Turn-starts l deliver_done r = omega arith
  Turn-starts l (run_inline e) r = omega arith
  Turn-starts l (keep e) r = omega arith
  Turn-starts l (drop e h) r = omega arith
  Turn-starts l (see_finished e) r = omega arith
  Turn-starts l (see_unfinished e) r = omega arith
  Turn-starts l (added {p} {c} {ph} {ts} s) r =
      let lt = l.commands.0.0 in
      let x = set_continuations (tasks p) ph ts in
      omega (
        arith,
        wanted-keep (start_of exec) tasks next p x r lt refl,
        vectors-change (starts r) tasks next p x lt,
        ap (sum (same r)) s.2,
        sum-append (same r) (tasks p).waiting (c ∷ []),
      )
  Turn-starts l (rejected s) r = omega arith
  Turn-starts l (unwrap_child {t} {child} e lc) r =
      let (lt, p, f) = holds_start exec l t (omega (arith, same_self t)) in
      let x = set_unwrapped (tasks t) in
      omega (
        arith,
        drop_pending exec tasks next t r x lt p f refl,
        wanted-new_one (start_of exec) (update tasks t x) next r (ap has_function e),
        vectors-same (starts r) tasks next t x refl,
        vectors-new (starts r) (update tasks t x) next,
      )
  Turn-starts l (unwrap_threw {t} e) r =
      let (lt, p, f) = holds_start exec l t (omega (arith, same_self t)) in
      let x = set_unwrapped (tasks t) in
      omega (
        arith,
        drop_pending exec tasks next t r x lt p f refl,
        vectors-same (starts r) tasks next t x refl,
      )
  Turn-starts l (work u) r = omega arith
  Turn-starts l (abandon_handle e u) r = omega arith
  Turn-starts l (spawn u p ne) r = omega (
    arith,
    wanted-new_one (start_of exec) tasks next r (function_of (exec next) ne),
    vectors-new (starts r) tasks next,
  )
  Turn-starts l (then_ {p} u e ne lt) r = omega (
    arith,
    wanted-new_one (start_of exec) tasks next r (parent-has_function (exec next) p e),
    vectors-new (starts r) tasks next,
  )
  Turn-starts l (new_event u e) r = omega (
    arith,
    wanted-new_none (start_of exec) tasks next r (ap has_function e),
    vectors-new (starts r) tasks next,
  )
  Turn-starts l (set_value {t} v u lt e p) r =
      let x = record (tasks t) { state = locked } in
      omega (
        arith,
        wanted-keep (start_of exec) tasks next t x r lt (sym (event_start e p)),
        vectors-same (starts r) tasks next t x refl,
      )
  Turn-starts l (set_exception {t} y u lt e p) r =
      let x = record (tasks t) { state = locked } in
      omega (
        arith,
        wanted-keep (start_of exec) tasks next t x r lt (sym (event_start e p)),
        vectors-same (starts r) tasks next t x refl,
      )
  Turn-starts l (set_fails f s u e q ne) r = omega arith
