-- ===== src/Task/Commands.antt =====
-- A continuation is on its way to its parent, or the parent has finished.
use asyncplusplus.Prelude.{
  ℕ, ◌≡◌, refl, ap, sym, ◌∙◌, List, Bool, true, none, some, arith, update, Every, Every-map,
}
use mathlib.Core.Path.{subst}
use mathlib.Core.Option.{some-injective}
use asyncplusplus.Prelude.Among.{same_self}
use asyncplusplus.Task.{
  TaskState, pending, locked, unwrapped, completed, canceled, is_finished, Scheduler, Exec, root,
  on_value, on_task, forward, event, parent_of, Task, new_task,
}
use asyncplusplus.Task.Handlers.{
  Command, run, calling, run_finish, finish, cancel, cancel_base, lock, flush, deliver, schedule,
  add, try, unwrap, dispatch, returned, Outcome, value, task, threw, forward_to, unless_canceled,
}
use asyncplusplus.Task.System.{
  Turn, start, forward_threw, return, finish_run, finish_base, cancel_run, cancel_only, set_lock,
  flush_all, deliver_next, deliver_done, run_inline, keep, drop, see_finished, see_unfinished,
  added, rejected, unwrap_child, unwrap_threw, work, abandon_handle, spawn, then_, new_event,
  set_value, set_exception, set_fails,
}
use asyncplusplus.Task.Kept.{Kept, Turn-Kept}
use asyncplusplus.Task.Good.{locked→finished}
use asyncplusplus.Task.Local.{Local, CommandOk, HandleOk, ParentDone, holds_flush}

module _ (exec : ℕ → Exec) {tasks : ℕ → Task} {next : ℕ} {tasks' : ℕ → Task} {next' : ℕ}
    (k : Kept tasks next tasks' next') where
  ParentDone-Kept : (c : ℕ) → ParentDone exec tasks c → ParentDone exec tasks' c
  ParentDone-Kept c h p e = ap is_finished (k.settled p (h p e)).0 ∙ h p e

  pub CommandOk-Kept : (c : Command) → CommandOk exec tasks next c → CommandOk exec tasks' next' c
  unfolding is_finished
  CommandOk-Kept (run c) h = ParentDone-Kept c h
  CommandOk-Kept (calling c) h = (
    ParentDone-Kept c h.0,
    λ s u p e. (k.settled p (ap is_finished (h.1 s u p e))).0 ∙ h.1 s u p e,
  )
  CommandOk-Kept (run_finish c v) h = tt
  CommandOk-Kept (finish t v) h = tt
  CommandOk-Kept (cancel t e) h = tt
  CommandOk-Kept (cancel_base t e) h = tt
  CommandOk-Kept (lock t) h = tt
  CommandOk-Kept (flush t) h = tt
  CommandOk-Kept (deliver cs) h =
      Every-map (ParentDone exec tasks) (ParentDone exec tasks') cs ParentDone-Kept h
  CommandOk-Kept (schedule c) h = ParentDone-Kept c h
  CommandOk-Kept (add p c) h = (omega (arith, h.0, k.next_up), h.1)
  CommandOk-Kept (try p c) h = (omega (arith, h.0, k.next_up), h.1)
  CommandOk-Kept (unwrap t c) h = tt

  pub HandleOk-Kept : (c : ℕ) → HandleOk exec tasks c → HandleOk exec tasks' c
  HandleOk-Kept c h = (h.0, ParentDone-Kept c h.1)

continuation-ParentDone :
    (exec : ℕ → Exec) (tasks : ℕ → Task) (p c : ℕ)
    → is_finished (tasks p).state ≡ true
    → parent_of (exec c) ≡ some p
    → ParentDone exec tasks c
continuation-ParentDone exec tasks p c f e q z =
    subst (λ k. is_finished (tasks k).state ≡ true) (some-injective p q (sym e ∙ z)) f

-- Continuations of a finished task.
Every-ParentDone :
    (exec : ℕ → Exec) (tasks : ℕ → Task) (p : ℕ) (cs : List ℕ)
    → is_finished (tasks p).state ≡ true
    → Every (λ c. parent_of (exec c) ≡ some p) cs
    → Every (ParentDone exec tasks) cs
Every-ParentDone exec tasks p cs f =
    Every-map (λ c. parent_of (exec c) ≡ some p) (ParentDone exec tasks) cs
      (λ c e. continuation-ParentDone exec tasks p c f e)

unless_canceled-ok :
    (exec : ℕ → Exec) (tasks : ℕ → Task) (next t : ℕ) (x : Task) (s : TaskState) (sc : Scheduler)
    (u : Bool) (p : ℕ)
    → exec t ≡ on_value sc u p
    → (tasks p).state ≡ s
    → ParentDone exec tasks t
    → CommandOk exec tasks next (unless_canceled t x s)
unfolding is_finished
unless_canceled-ok exec tasks next t x pending sc u p e f h =
    absurd (cc (h p (ap parent_of e), ap is_finished f))
unless_canceled-ok exec tasks next t x locked sc u p e f h =
    absurd (cc (h p (ap parent_of e), ap is_finished f))
unless_canceled-ok exec tasks next t x unwrapped sc u p e f h =
    absurd (cc (h p (ap parent_of e), ap is_finished f))
unless_canceled-ok exec tasks next t x completed sc u p e f h = (
  h,
  λ sc' u' p' e'.
      subst (λ k. (tasks k).state ≡ completed) (some-injective p p' (ap parent_of (sym e ∙ e'))) f,
)
unless_canceled-ok exec tasks next t x canceled sc u p e f h = tt

forward_to-ok :
    (exec : ℕ → Exec) (tasks : ℕ → Task) (next p : ℕ) (x : Task) (s : TaskState)
    → CommandOk exec tasks next (forward_to p x s)
forward_to-ok exec tasks next p x pending = tt
forward_to-ok exec tasks next p x locked = tt
forward_to-ok exec tasks next p x unwrapped = tt
forward_to-ok exec tasks next p x completed = tt
forward_to-ok exec tasks next p x canceled = tt

dispatch-ok :
    (exec : ℕ → Exec) (tasks : ℕ → Task) (next t : ℕ) (ex : Exec)
    → exec t ≡ ex
    → ParentDone exec tasks t
    → Every (CommandOk exec tasks next) (dispatch tasks t ex)
dispatch-ok exec tasks next t (root s u) q h = ((h, λ s' u' p' e. absurd cc), tt)
dispatch-ok exec tasks next t (on_task s u p) q h = ((h, λ s' u' p' e. absurd cc), tt)
dispatch-ok exec tasks next t (on_value s u p) q h =
    (unless_canceled-ok exec tasks next t (tasks p) (tasks p).state s u p q refl h, tt)
dispatch-ok exec tasks next t (forward p c) q h =
    (forward_to-ok exec tasks next p (tasks c) (tasks c).state, (tt, tt))
dispatch-ok exec tasks next t event q h = tt

returned-ok :
    (exec : ℕ → Exec) (tasks : ℕ → Task) (next t : ℕ) (o : Outcome)
    → CommandOk exec tasks next (returned t o)
returned-ok exec tasks next t (value v) = tt
returned-ok exec tasks next t (task c) = tt
returned-ok exec tasks next t (threw e) = tt

no_parent :
    (exec : ℕ → Exec) (tasks : ℕ → Task) (c : ℕ)
    → parent_of (exec c) ≡ none
    → ParentDone exec tasks c
no_parent exec tasks c e p z = absurd cc

module _ (exec : ℕ → Exec) {tasks : ℕ → Task} {next : ℕ} {stack : List Command} where
  -- What a turn leaves its thread to do, and the handles that it gives to a scheduler.
  pub Turn-commands :
      {before : List Command} {taken : List ℕ} {tasks' : ℕ → Task} {next' : ℕ}
      {after : List Command} {given : List ℕ}
      → Local exec tasks next before taken
      → Turn exec tasks next stack before taken tasks' next' after given
      → Every (CommandOk exec tasks' next') after × Every (HandleOk exec tasks') given
  Turn-commands l (start {t}) = (dispatch-ok exec tasks next t (exec t) refl l.commands.0, tt)
  Turn-commands l (forward_threw e x y) = ((tt, (tt, tt)), tt)
  Turn-commands l (return {t} o a) = ((returned-ok exec tasks next t o, tt), tt)
  Turn-commands l finish_run = ((tt, tt), tt)
  Turn-commands l finish_base = ((tt, tt), tt)
  Turn-commands l cancel_run = ((tt, tt), tt)
  Turn-commands l cancel_only = ((tt, tt), tt)
  Turn-commands l (set_lock s) = ((tt, tt), tt)
  Turn-commands l (flush_all {t} {ph} {ts} {flushed} s) =
      let (lt, p, w) = holds_flush exec l t (omega (arith, same_self t)) in
      let f = locked→finished exec tasks t l.plain (λ z. cc) in
      let k =
        Turn-Kept exec {stack = stack} l
          (flush_all {t = t} {ph = ph} {ts = ts} {flushed = flushed} s) in
      let ok =
        Every-ParentDone exec tasks t flushed f
          (subst (Every (λ c. parent_of (exec c) ≡ some t)) (sym s.2) (l.waits t).0) in
      ((CommandOk-Kept exec k (deliver flushed) ok, tt), tt)
  Turn-commands l (deliver_next {c} {ts}) = ((l.commands.0.0, (l.commands.0.1, tt)), tt)
  Turn-commands l deliver_done = (tt, tt)
  Turn-commands l (run_inline e) = ((l.commands.0, tt), tt)
  Turn-commands l (keep e) = (tt, ((e, l.commands.0), tt))
  Turn-commands l (drop e h) = ((tt, tt), tt)
  Turn-commands l (see_finished {p} {c} e) =
      ((continuation-ParentDone exec tasks p c e l.commands.0.1, tt), tt)
  Turn-commands l (see_unfinished e) = ((l.commands.0, tt), tt)
  Turn-commands l (added s) = (tt, tt)
  Turn-commands l (rejected {p} {c} s) =
      let f = locked→finished exec tasks p l.plain s.0 in
      ((continuation-ParentDone exec tasks p c f l.commands.0.1, tt), tt)
  Turn-commands l (unwrap_child {t} {child} e lc) = (((omega arith, ap parent_of e), tt), tt)
  Turn-commands l (unwrap_threw e) = ((tt, tt), tt)
  Turn-commands l (work u) = ((l.handles.0.1, tt), tt)
  Turn-commands l (abandon_handle e u) = ((tt, tt), tt)
  Turn-commands l (spawn u p ne) = ((no_parent exec (update tasks next new_task) next p, tt), tt)
  Turn-commands l (then_ u e ne lt) = (((omega arith, e), tt), tt)
  Turn-commands l (new_event u e) = (tt, tt)
  Turn-commands l (set_value v u lt e p) = ((tt, tt), tt)
  Turn-commands l (set_exception y u lt e p) = ((tt, tt), tt)
  Turn-commands l (set_fails f s u e q ne) = (tt, tt)
