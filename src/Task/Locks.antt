-- ===== src/Task/Locks.antt =====
-- One thread, and only one, passes on the continuations of a finished task.
use asyncplusplus.Prelude.{ℕ, ◌≡◌, refl, ap, sym, ◌∙◌, List, arith, update}
use asyncplusplus.Prelude.Among.{same_self}
use asyncplusplus.ContinuationVector.Contract.{Phase, closing, closed}
use asyncplusplus.Task.{
  TaskState, pending, locked, unwrapped, completed, canceled, is_finished, Exec, Task,
}
use asyncplusplus.Task.Handlers.{Command, destroy_func, complete, cancel_with, set_unwrapped}
use asyncplusplus.Task.System.{
  Turn, start, forward_threw, return, finish_run, finish_base, cancel_run, cancel_only, set_lock,
  flush_all, deliver_next, deliver_done, run_inline, keep, drop, see_finished, see_unfinished,
  added, rejected, unwrap_child, unwrap_threw, work, abandon_handle, spawn, then_, new_event,
  set_value, set_exception, set_fails, set_continuations,
}
use asyncplusplus.Task.Weights.{locks, wanted_lock}
use asyncplusplus.Task.Balance.{
  wanted-drop, wanted-keep, wanted-new_none, vectors-same, vectors-change, vectors-new, Balanced,
}
use asyncplusplus.Task.Local.{Local, lock_of, holds_start, holds_end, holds_lock, holds_flush}
use asyncplusplus.Task.Passing.{
  no_handles, dispatch-Neither, returned-Neither, pending-unfinished, gain_lock, keep_lock,
}

lock-closing : (s : TaskState) → wanted_lock s closing ≡ 0
lock-closing pending = refl
lock-closing locked = refl
lock-closing unwrapped = refl
lock-closing completed = refl
lock-closing canceled = refl

lock-closed : (s : TaskState) → wanted_lock s closed ≡ 0
lock-closed pending = refl
lock-closed locked = refl
lock-closed unwrapped = refl
lock-closed completed = refl
lock-closed canceled = refl

after_lock : (s : TaskState) {ph : Phase} → ph ≡ closing → wanted_lock s ph ≡ 0
after_lock s e = ap (wanted_lock s) e ∙ lock-closing s

same_unlocked :
    (s : TaskState) {ph ph' : Phase}
    → ph ≡ closing
    → ph' ≡ closed
    → wanted_lock s ph' ≡ wanted_lock s ph
same_unlocked s e e' = ap (wanted_lock s) e' ∙ lock-closed s ∙ sym (after_lock s e)

module _ (exec : ℕ → Exec) {tasks : ℕ → Task} {next : ℕ} {stack : List Command} where
  pub Turn-locks :
      {before : List Command} {taken : List ℕ} {tasks' : ℕ → Task} {next' : ℕ}
      {after : List Command} {given : List ℕ}
      → Local exec tasks next before taken
      → Turn exec tasks next stack before taken tasks' next' after given
      → (r : ℕ)
      → Balanced (locks r) (lock_of exec) tasks next before taken tasks' next' after given r
  unfolding is_finished
  Turn-locks l (start {t}) r = omega (arith, dispatch-Neither r t tasks (exec t))
  Turn-locks l (forward_threw e x y) r = omega arith
  Turn-locks l (return {t} o a) r = omega (arith, returned-Neither r t o)
  Turn-locks l (finish_run {t} {v}) r =
      let (lt, p, f) = holds_start exec l t (omega (arith, same_self t)) in
      let x = destroy_func (complete (tasks t) v) in
      omega (
        arith,
        gain_lock exec l t x lt r (pending-unfinished p) refl,
        vectors-same (locks r) tasks next t x refl,
      )
  Turn-locks l (finish_base {t} {v}) r =
      let (lt, e, z, f) = holds_end exec l t (omega (arith, same_self t)) in
      let x = complete (tasks t) v in
      omega (arith, gain_lock exec l t x lt r (f) refl, vectors-same (locks r) tasks next t x refl)
  Turn-locks l (cancel_run {t} {e}) r =
      let (lt, p, f) = holds_start exec l t (omega (arith, same_self t)) in
      let x = destroy_func (cancel_with (tasks t) e) in
      omega (
        arith,
        gain_lock exec l t x lt r (pending-unfinished p) refl,
        vectors-same (locks r) tasks next t x refl,
      )
  Turn-locks l (cancel_only {t} {e}) r =
      let (lt, w, z, f) = holds_end exec l t (omega (arith, same_self t)) in
      let x = cancel_with (tasks t) e in
      omega (arith, gain_lock exec l t x lt r (f) refl, vectors-same (locks r) tasks next t x refl)
  Turn-locks l (set_lock {t} {ph} {ts} s) r =
      let (lt, f, p, w) = holds_lock exec l t (omega (arith, same_self t)) in
      let x = set_continuations (tasks t) ph ts in
      omega (
        arith,
        wanted-drop (lock_of exec) tasks next t x r lt w (after_lock (tasks t).state s.1),
        vectors-same (locks r) tasks next t x s.2,
      )
  Turn-locks l (flush_all {t} {ph} {ts} s) r =
      let (lt, p, w) = holds_flush exec l t (omega (arith, same_self t)) in
      let x = set_continuations (tasks t) ph ts in
      omega (
        arith,
        wanted-keep (lock_of exec) tasks next t x r lt (same_unlocked (tasks t).state p s.1),
        vectors-change (locks r) tasks next t x lt,
        no_handles ts,
        no_handles (tasks t).waiting,
      )
  Turn-locks l deliver_next r = omega arith
  Turn-locks l deliver_done r = omega arith
  Turn-locks l (run_inline e) r = omega arith
  Turn-locks l (keep e) r = omega arith
  Turn-locks l (drop e h) r = omega arith
  Turn-locks l (see_finished e) r = omega arith
  Turn-locks l (see_unfinished e) r = omega arith
  Turn-locks l (added {p} {c} {ph} {ts} s) r =
      let lt = l.commands.0.0 in
      let x = set_continuations (tasks p) ph ts in
      omega (
        arith,
        wanted-keep (lock_of exec) tasks next p x r lt (ap (wanted_lock (tasks p).state) s.1),
        vectors-change (locks r) tasks next p x lt,
        no_handles ts,
        no_handles (tasks p).waiting,
      )
  Turn-locks l (rejected s) r = omega arith
  Turn-locks l (unwrap_child {t} {child} e lc) r =
      let (lt, p, f) = holds_start exec l t (omega (arith, same_self t)) in
      let x = set_unwrapped (tasks t) in
      omega (
        arith,
        keep_lock exec l t x lt r (pending-unfinished p) refl,
        wanted-new_none (lock_of exec) (update tasks t x) next r refl,
        vectors-same (locks r) tasks next t x refl,
        vectors-new (locks r) (update tasks t x) next,
      )
  Turn-locks l (unwrap_threw {t} e) r =
      let (lt, p, f) = holds_start exec l t (omega (arith, same_self t)) in
      let x = set_unwrapped (tasks t) in
      omega (
        arith,
        keep_lock exec l t x lt r (pending-unfinished p) refl,
        vectors-same (locks r) tasks next t x refl,
      )
  Turn-locks l (work u) r = omega arith
  Turn-locks l (abandon_handle e u) r = omega arith
  Turn-locks l (spawn u p ne) r =
      omega
        (arith, wanted-new_none (lock_of exec) tasks next r refl, vectors-new (locks r) tasks next)
  Turn-locks l (then_ u e ne lt) r =
      omega
        (arith, wanted-new_none (lock_of exec) tasks next r refl, vectors-new (locks r) tasks next)
  Turn-locks l (new_event u e) r =
      omega
        (arith, wanted-new_none (lock_of exec) tasks next r refl, vectors-new (locks r) tasks next)
  Turn-locks l (set_value {t} v u lt e p) r =
      let x = record (tasks t) { state = locked } in
      omega (
        arith,
        keep_lock exec l t x lt r (pending-unfinished p) refl,
        vectors-same (locks r) tasks next t x refl,
      )
  Turn-locks l (set_exception {t} y u lt e p) r =
      let x = record (tasks t) { state = locked } in
      omega (
        arith,
        keep_lock exec l t x lt r (pending-unfinished p) refl,
        vectors-same (locks r) tasks next t x refl,
      )
  Turn-locks l (set_fails f s u e q ne) r = omega arith
