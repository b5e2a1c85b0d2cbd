-- ===== src/Task/Flushes.antt =====
-- A continuation vector that is locked is flushed by one thread.
use asyncplusplus.Prelude.{ℕ, refl, ap, List, arith, update}
use asyncplusplus.Prelude.Among.{same_self}
use asyncplusplus.Task.{locked, Exec, Task}
use asyncplusplus.Task.Handlers.{Command, destroy_func, complete, cancel_with, set_unwrapped}
use asyncplusplus.Task.System.{
  Turn, start, forward_threw, return, finish_run, finish_base, cancel_run, cancel_only, set_lock,
  flush_all, deliver_next, deliver_done, run_inline, keep, drop, see_finished, see_unfinished,
  added, rejected, unwrap_child, unwrap_threw, work, abandon_handle, spawn, then_, new_event,
  set_value, set_exception, set_fails, set_continuations,
}
use asyncplusplus.Task.Weights.{flushes, wanted_flush}
use asyncplusplus.Task.Balance.{
  wanted-drop, wanted-gain, wanted-new_none, vectors-same, vectors-change, vectors-new, Balanced,
}
use asyncplusplus.Task.Local.{Local, flush_of, holds_start, holds_end, holds_lock, holds_flush}
use asyncplusplus.Task.Passing.{no_handles, dispatch-Neither, returned-Neither, keep_flush}

module _ (exec : ℕ → Exec) {tasks : ℕ → Task} {next : ℕ} {stack : List Command} where
  pub Turn-flushes :
      {before : List Command} {taken : List ℕ} {tasks' : ℕ → Task} {next' : ℕ}
      {after : List Command} {given : List ℕ}
      → Local exec tasks next before taken
      → Turn exec tasks next stack before taken tasks' next' after given
      → (r : ℕ)
      → Balanced (flushes r) (flush_of exec) tasks next before taken tasks' next' after given r
  Turn-flushes l (start {t}) r = omega (arith, dispatch-Neither r t tasks (exec t))
  Turn-flushes l (forward_threw e x y) r = omega arith
  Turn-flushes l (return {t} o a) r = omega (arith, returned-Neither r t o)
  Turn-flushes l (finish_run {t} {v}) r =
      let (lt, p, f) = holds_start exec l t (omega (arith, same_self t)) in
      let x = destroy_func (complete (tasks t) v) in
      omega (arith, keep_flush exec l t x lt r refl, vectors-same (flushes r) tasks next t x refl)
  Turn-flushes l (finish_base {t} {v}) r =
      let (lt, e, z, f) = holds_end exec l t (omega (arith, same_self t)) in
      let x = complete (tasks t) v in
      omega (arith, keep_flush exec l t x lt r refl, vectors-same (flushes r) tasks next t x refl)
  Turn-flushes l (cancel_run {t} {e}) r =
      let (lt, p, f) = holds_start exec l t (omega (arith, same_self t)) in
      let x = destroy_func (cancel_with (tasks t) e) in
      omega (arith, keep_flush exec l t x lt r refl, vectors-same (flushes r) tasks next t x refl)
  Turn-flushes l (cancel_only {t} {e}) r =
      let (lt, w, z, f) = holds_end exec l t (omega (arith, same_self t)) in
      let x = cancel_with (tasks t) e in
      omega (arith, keep_flush exec l t x lt r refl, vectors-same (flushes r) tasks next t x refl)
  Turn-flushes l (set_lock {t} {ph} {ts} s) r =
      let (lt, f, p, w) = holds_lock exec l t (omega (arith, same_self t)) in
      let x = set_continuations (tasks t) ph ts in
      omega (
        arith,
        wanted-gain (flush_of exec) tasks next t x r lt (ap wanted_flush p) (ap wanted_flush s.1),
        vectors-same (flushes r) tasks next t x s.2,
      )
  Turn-flushes l (flush_all {t} {ph} {ts} s) r =
      let (lt, p, w) = holds_flush exec l t (omega (arith, same_self t)) in
      let x = set_continuations (tasks t) ph ts in
      omega (
        arith,
        wanted-drop (flush_of exec) tasks next t x r lt w (ap wanted_flush s.1),
        vectors-change (flushes r) tasks next t x lt,
        no_handles ts,
        no_handles (tasks t).waiting,
      )
  Turn-flushes l deliver_next r = omega arith
  Turn-flushes l deliver_done r = omega arith
  Turn-flushes l (run_inline e) r = omega arith
  Turn-flushes l (keep e) r = omega arith
  Turn-flushes l (drop e h) r = omega arith
  Turn-flushes l (see_finished e) r = omega arith
  Turn-flushes l (see_unfinished e) r = omega arith
  Turn-flushes l (added {p} {c} {ph} {ts} s) r =
      let lt = l.commands.0.0 in
      let x = set_continuations (tasks p) ph ts in
      omega (
        arith,
        keep_flush exec l p x lt r s.1,
        vectors-change (flushes r) tasks next p x lt,
        no_handles ts,
        no_handles (tasks p).waiting,
      )
  Turn-flushes l (rejected s) r = omega arith
  Turn-flushes l (unwrap_child {t} {child} e lc) r =
      let (lt, p, f) = holds_start exec l t (omega (arith, same_self t)) in
      let x = set_unwrapped (tasks t) in
      omega (
        arith,
        keep_flush exec l t x lt r refl,
        wanted-new_none (flush_of exec) (update tasks t x) next r refl,
        vectors-same (flushes r) tasks next t x refl,
        vectors-new (flushes r) (update tasks t x) next,
      )
  Turn-flushes l (unwrap_threw {t} e) r =
      let (lt, p, f) = holds_start exec l t (omega (arith, same_self t)) in
      let x = set_unwrapped (tasks t) in
      omega (arith, keep_flush exec l t x lt r refl, vectors-same (flushes r) tasks next t x refl)
  Turn-flushes l (work u) r = omega arith
  Turn-flushes l (abandon_handle e u) r = omega arith
  Turn-flushes l (spawn u p ne) r =
      omega (
        arith,
        wanted-new_none (flush_of exec) tasks next r refl,
        vectors-new (flushes r) tasks next,
      )
  Turn-flushes l (then_ u e ne lt) r =
      omega (
        arith,
        wanted-new_none (flush_of exec) tasks next r refl,
        vectors-new (flushes r) tasks next,
      )
  Turn-flushes l (new_event u e) r =
      omega (
        arith,
        wanted-new_none (flush_of exec) tasks next r refl,
        vectors-new (flushes r) tasks next,
      )
  Turn-flushes l (set_value {t} v u lt e p) r =
      let x = record (tasks t) { state = locked } in
      omega (arith, keep_flush exec l t x lt r refl, vectors-same (flushes r) tasks next t x refl)
  Turn-flushes l (set_exception {t} y u lt e p) r =
      let x = record (tasks t) { state = locked } in
      omega (arith, keep_flush exec l t x lt r refl, vectors-same (flushes r) tasks next t x refl)
  Turn-flushes l (set_fails f s u e q ne) r = omega arith
