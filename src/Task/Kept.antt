-- ===== src/Task/Kept.antt =====
-- What a turn leaves alone.
use asyncplusplus.Prelude.{
  ℕ, ◌≤◌, ◌≡◌, refl, ap, sym, ◌∙◌, List, true, false, arith, update, update_ne, update_self,
  ℕ_discrete, suc,
}
use asyncplusplus.Prelude.Among.{same_self}
use asyncplusplus.ContinuationVector.Contract.{Phase}
use asyncplusplus.Task.{locked, is_finished, Exec, Task, new_task}
use asyncplusplus.Task.Handlers.{Command, destroy_func, complete, cancel_with, set_unwrapped}
use asyncplusplus.Task.System.{
  Turn, start, forward_threw, return, finish_run, finish_base, cancel_run, cancel_only, set_lock,
  flush_all, deliver_next, deliver_done, run_inline, keep, drop, see_finished, see_unfinished,
  added, rejected, unwrap_child, unwrap_threw, work, abandon_handle, spawn, then_, new_event,
  set_value, set_exception, set_fails, set_continuations,
}
use asyncplusplus.Task.Local.{Local, holds_start, holds_end}

-- A turn leaves the outcome of a finished task alone.
pub record Kept (tasks : ℕ → Task) (next : ℕ) (tasks' : ℕ → Task) (next' : ℕ) : Type 0 where
  pub next_up : next ≤ next'
  pub settled :
      (p : ℕ)
      → is_finished (tasks p).state ≡ true
      → ((tasks' p).state ≡ (tasks p).state)
        × ((tasks' p).result ≡ (tasks p).result)
        × ((tasks' p).except ≡ (tasks p).except)

Kept-refl : (tasks : ℕ → Task) (next : ℕ) → Kept tasks next tasks next
Kept-refl tasks next = record { next_up = omega arith; settled = λ p f. (refl, refl, refl) }

-- An unfinished task changes.
Kept-update :
    (tasks : ℕ → Task) (next next' t : ℕ) (x : Task)
    → next ≤ next'
    → is_finished (tasks t).state ≡ false
    → Kept tasks next (update tasks t x) next'
Kept-update tasks next next' t x le u = record {
  next_up = le;
  settled = λ p f. elim (ℕ_discrete t p) [
    | yes e ↦ absurd (cc (sym f, ap (λ k. is_finished (tasks k).state) e, u))
    | no ne ↦ (
      ap (λ k. k.state) (update_ne tasks t p x ne),
      ap (λ k. k.result) (update_ne tasks t p x ne),
      ap (λ k. k.except) (update_ne tasks t p x ne),
    )
  ];
}

Kept-continuations :
    (tasks : ℕ → Task) (next t : ℕ) (ph : Phase) (ts : List ℕ)
    → Kept tasks next (update tasks t (set_continuations (tasks t) ph ts)) next
Kept-continuations tasks next t ph ts = record {
  next_up = omega arith;
  settled = λ p f. elim (ℕ_discrete t p) [
    | yes e ↦ (
      ap (λ k. (update tasks t x k).state) (sym e)
          ∙ ap (λ k. k.state) (update_self tasks t x)
          ∙ ap (λ k. (tasks k).state) e,
      ap (λ k. (update tasks t x k).result) (sym e)
          ∙ ap (λ k. k.result) (update_self tasks t x)
          ∙ ap (λ k. (tasks k).result) e,
      ap (λ k. (update tasks t x k).except) (sym e)
          ∙ ap (λ k. k.except) (update_self tasks t x)
          ∙ ap (λ k. (tasks k).except) e,
    )
    | no ne ↦ (
      ap (λ k. k.state) (update_ne tasks t p x ne),
      ap (λ k. k.result) (update_ne tasks t p x ne),
      ap (λ k. k.except) (update_ne tasks t p x ne),
    )
  ];
}
  where
    x : Task
    x = set_continuations (tasks t) ph ts

Kept-twice : {a b c : ℕ → Task} {n m k : ℕ} → Kept a n b m → Kept b m c k → Kept a n c k
Kept-twice {a} {b} u v = record {
  next_up = omega (arith, u.next_up, v.next_up);
  settled = λ p f.
      let (s, r, e) = u.settled p f in
      let (s', r', e') = v.settled p (ap is_finished s ∙ f) in (s' ∙ s, r' ∙ r, e' ∙ e);
}

module _ (exec : ℕ → Exec) {tasks : ℕ → Task} {next : ℕ} {stack : List Command} where
  pub Turn-Kept :
      {before : List Command} {taken : List ℕ} {tasks' : ℕ → Task} {next' : ℕ}
      {after : List Command} {given : List ℕ}
      → Local exec tasks next before taken
      → Turn exec tasks next stack before taken tasks' next' after given
      → Kept tasks next tasks' next'
  unfolding is_finished
  Turn-Kept l start = Kept-refl tasks next
  Turn-Kept l (forward_threw e x y) = Kept-refl tasks next
  Turn-Kept l (return o a) = Kept-refl tasks next
  Turn-Kept l (finish_run {t} {v}) =
      let (lt, p, f) = holds_start exec l t (omega (arith, same_self t)) in
      Kept-update tasks next next t (destroy_func (complete (tasks t) v)) (omega arith)
        (ap is_finished p)
  Turn-Kept l (finish_base {t} {v}) =
      let (lt, e, z, f) = holds_end exec l t (omega (arith, same_self t)) in
      Kept-update tasks next next t (complete (tasks t) v) (omega arith) f
  Turn-Kept l (cancel_run {t} {e}) =
      let (lt, p, f) = holds_start exec l t (omega (arith, same_self t)) in
      Kept-update tasks next next t (destroy_func (cancel_with (tasks t) e)) (omega arith)
        (ap is_finished p)
  Turn-Kept l (cancel_only {t} {e}) =
      let (lt, w, z, f) = holds_end exec l t (omega (arith, same_self t)) in
      Kept-update tasks next next t (cancel_with (tasks t) e) (omega arith) f
  Turn-Kept l (set_lock {t} {ph} {ts} s) = Kept-continuations tasks next t ph ts
  Turn-Kept l (flush_all {t} {ph} {ts} s) = Kept-continuations tasks next t ph ts
  Turn-Kept l deliver_next = Kept-refl tasks next
  Turn-Kept l deliver_done = Kept-refl tasks next
  Turn-Kept l (run_inline e) = Kept-refl tasks next
  Turn-Kept l (keep e) = Kept-refl tasks next
  Turn-Kept l (drop e h) = Kept-refl tasks next
  Turn-Kept l (see_finished e) = Kept-refl tasks next
  Turn-Kept l (see_unfinished e) = Kept-refl tasks next
  Turn-Kept l (added {p} {c} {ph} {ts} s) = Kept-continuations tasks next p ph ts
  Turn-Kept l (rejected s) = Kept-refl tasks next
  Turn-Kept l (unwrap_child {t} {child} e lc) =
      let (lt, p, f) = holds_start exec l t (omega (arith, same_self t)) in
      let x = set_unwrapped (tasks t) in
      Kept-twice (Kept-update tasks next next t x (omega arith) (ap is_finished p)) (
        Kept-update (update tasks t x) next (suc next) next new_task (omega arith) (
          ap (λ k. is_finished k.state) (update_ne tasks t next x (omega arith))
          ∙ l.fresh next (omega arith)))
  Turn-Kept l (unwrap_threw {t} e) =
      let (lt, p, f) = holds_start exec l t (omega (arith, same_self t)) in
      Kept-update tasks next next t (set_unwrapped (tasks t)) (omega arith) (ap is_finished p)
  Turn-Kept l (work u) = Kept-refl tasks next
  Turn-Kept l (abandon_handle e u) = Kept-refl tasks next
  Turn-Kept l (spawn u p ne) =
      Kept-update tasks next (suc next) next new_task (omega arith) (l.fresh next (omega arith))
  Turn-Kept l (then_ u e ne lt) =
      Kept-update tasks next (suc next) next new_task (omega arith) (l.fresh next (omega arith))
  Turn-Kept l (new_event u e) =
      Kept-update tasks next (suc next) next new_task (omega arith) (l.fresh next (omega arith))
  Turn-Kept l (set_value {t} v u lt e p) =
      Kept-update tasks next next t (record (tasks t) { state = locked }) (omega arith)
        (ap is_finished p)
  Turn-Kept l (set_exception {t} y u lt e p) =
      Kept-update tasks next next t (record (tasks t) { state = locked }) (omega arith)
        (ap is_finished p)
  Turn-Kept l (set_fails f s u e q ne) = Kept-refl tasks next
