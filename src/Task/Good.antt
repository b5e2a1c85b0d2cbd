-- ===== src/Task/Good.antt =====
-- What is stored in the tasks stays right.
use asyncplusplus.Prelude.{
  ℕ, ◌≤◌, ◌<◌, ◌≡◌, ◌≢◌, refl, ap, sym, ◌∙◌, List, [], ◌∷◌, true, false, some, arith, update,
  update_ne, update_self, ℕ_discrete, Every, Every-append, ◌⊎◌, inl, inr, Bool-cases, suc,
}
use mathlib.Core.Path.{subst}
use asyncplusplus.Prelude.Among.{same_self}
use asyncplusplus.ContinuationVector.Contract.{Phase, accepting}
use asyncplusplus.Task.{
  TaskState, pending, locked, unwrapped, completed, canceled, is_finished, Exec, parent_of, Task,
  new_task,
}
use asyncplusplus.Task.Handlers.{Command, destroy_func, complete, cancel_with, set_unwrapped}
use asyncplusplus.Task.System.{
  Turn, start, forward_threw, return, finish_run, finish_base, cancel_run, cancel_only, set_lock,
  flush_all, deliver_next, deliver_done, run_inline, keep, drop, see_finished, see_unfinished,
  added, rejected, unwrap_child, unwrap_threw, work, abandon_handle, spawn, then_, new_event,
  set_value, set_exception, set_fails, set_continuations,
}
use asyncplusplus.Task.Weights.{wanted_end, has_function}
use asyncplusplus.Task.Local.{
  Local, StateOk, TaskOk, WaitingOk, Plain, Empty, VectorOk, holds_start, holds_end, holds_lock,
  holds_flush,
}

module _ (exec : ℕ → Exec) where
  pub record Sound (tasks : ℕ → Task) (next : ℕ) : Type 0 where
    pub good : (t : ℕ) → TaskOk exec t (tasks t)
    pub fresh : (t : ℕ) → next ≤ t → is_finished (tasks t).state ≡ false
    pub waits : WaitingOk exec tasks

  Local-Sound :
      {tasks : ℕ → Task} {next : ℕ} {before : List Command} {taken : List ℕ}
      → Local exec tasks next before taken
      → Sound tasks next
  Local-Sound l = record { good = l.good; fresh = l.fresh; waits = l.waits }

  -- A property of all tasks, after one has changed.
  everywhere :
      (P : ℕ → Task → Type 0) (tasks : ℕ → Task) (u : ℕ) (x : Task)
      → P u x
      → (t : ℕ) → (u ≢ t → P t (tasks t))
      → P t (update tasks u x t)
  everywhere P tasks u x h t k = elim (ℕ_discrete u t) [
    | yes e ↦ subst (λ k. P k (update tasks u x k)) e (subst (P u) (sym (update_self tasks u x)) h)
    | no ne ↦ subst (P t) (sym (update_ne tasks u t x ne)) (k ne)
  ]

  abbrev Unfinished : ℕ → Task → Type 0
  Unfinished t x = is_finished x.state ≡ false

  Sound-update :
      (tasks : ℕ → Task) (next u : ℕ) (x : Task)
      → Sound tasks next
      → u < next
      → TaskOk exec u x
      → VectorOk exec u x
      → Sound (update tasks u x) next
  Sound-update tasks next u x v lt h k = record {
    good = λ t. everywhere (TaskOk exec) tasks u x h t (λ ne. v.good t);
    fresh = λ t le. subst (Unfinished t) (sym (update_ne tasks u t x (omega arith))) (v.fresh t le);
    waits = λ t. everywhere (VectorOk exec) tasks u x k t (λ ne. v.waits t);
  }

  Sound-new :
      (tasks : ℕ → Task) (next : ℕ)
      → Sound tasks next
      → Sound (update tasks next new_task) (suc next)
  unfolding is_finished
  Sound-new tasks next v = record {
    good = λ t.
        everywhere (TaskOk exec) tasks next new_task (refl, refl, (refl, refl)) t (λ ne. v.good t);
    fresh = λ t le.
        subst (Unfinished t) (sym (update_ne tasks next t new_task (omega arith)))
          (v.fresh t (omega arith));
    waits = λ t.
        everywhere (VectorOk exec) tasks next new_task (tt, λ c. absurd cc) t (λ ne. v.waits t);
  }

pending_ok :
    (ex : Exec) (x : Task) (s : TaskState)
    → s ≡ pending
    → StateOk ex x s
    → (x.phase ≡ accepting) × (x.destroyed ≡ 0) × Empty x
pending_ok ex x pending e h = h
pending_ok ex x locked e h = absurd cc
pending_ok ex x unwrapped e h = absurd cc
pending_ok ex x completed e h = absurd cc
pending_ok ex x canceled e h = absurd cc

end_ok :
    (ex : Exec) (x : Task) (s : TaskState)
    → wanted_end s ≡ 1
    → StateOk ex x s
    → (x.destroyed ≡ has_function ex) × Empty x
end_ok ex x pending e h = absurd (omega arith)
end_ok ex x locked e h = (h.1 ∙ sym h.2, h.3)
end_ok ex x unwrapped e h = (h.1 ∙ sym h.2, h.3)
end_ok ex x completed e h = absurd (omega arith)
end_ok ex x canceled e h = absurd (omega arith)

-- A finished task may change its continuations; another may as long as they stay unlocked.
continuations_ok :
    (ex : Exec) (x : Task) (s : TaskState) (ph : Phase) (ts : List ℕ)
    → (ph ≡ x.phase) ⊎ (is_finished s ≡ true)
    → StateOk ex x s
    → StateOk ex (set_continuations x ph ts) s
unfolding is_finished
continuations_ok ex x pending ph ts (inl e) h = (e ∙ h.0, h.1, h.2)
continuations_ok ex x locked ph ts (inl e) h = (e ∙ h.0, h.1, h.2, h.3)
continuations_ok ex x unwrapped ph ts (inl e) h = (e ∙ h.0, h.1, h.2, h.3)
continuations_ok ex x pending ph ts (inr f) h = absurd cc
continuations_ok ex x locked ph ts (inr f) h = absurd cc
continuations_ok ex x unwrapped ph ts (inr f) h = absurd cc
continuations_ok ex x completed ph ts e h = h
continuations_ok ex x canceled ph ts e h = h

-- Only a finished task has locked its continuations.
pub locked→finished :
    (exec : ℕ → Exec) (tasks : ℕ → Task) (t : ℕ)
    → Plain exec tasks
    → (tasks t).phase ≢ accepting
    → is_finished (tasks t).state ≡ true
locked→finished exec tasks t plain ne = elim (Bool-cases (is_finished (tasks t).state)) [
  | inl f ↦ f
  | inr u ↦ absurd (ne (plain t u))
]

module _ (exec : ℕ → Exec) {tasks : ℕ → Task} {next : ℕ} {stack : List Command} where
  pub Turn-Sound :
      {before : List Command} {taken : List ℕ} {tasks' : ℕ → Task} {next' : ℕ}
      {after : List Command} {given : List ℕ}
      → Local exec tasks next before taken
      → Turn exec tasks next stack before taken tasks' next' after given
      → Sound exec tasks' next'
  Turn-Sound l start = Local-Sound exec l
  Turn-Sound l (forward_threw e x y) = Local-Sound exec l
  Turn-Sound l (return o a) = Local-Sound exec l
  Turn-Sound l (finish_run {t} {v}) =
      let (lt, p, f) = holds_start exec l t (omega (arith, same_self t)) in
      let (ph, d, em) = pending_ok (exec t) (tasks t) (tasks t).state p (l.good t) in
      Sound-update exec tasks next t (destroy_func (complete (tasks t) v)) (Local-Sound exec l) lt
        (omega (arith, d, f), (v, refl), em.1) (l.waits t)
  Turn-Sound l (finish_base {t} {v}) =
      let (lt, w, z, f) = holds_end exec l t (omega (arith, same_self t)) in
      let (d, em) = end_ok (exec t) (tasks t) (tasks t).state w (l.good t) in
      Sound-update exec tasks next t (complete (tasks t) v) (Local-Sound exec l) lt
        (d, (v, refl), em.1) (l.waits t)
  Turn-Sound l (cancel_run {t} {e}) =
      let (lt, p, f) = holds_start exec l t (omega (arith, same_self t)) in
      let (ph, d, em) = pending_ok (exec t) (tasks t) (tasks t).state p (l.good t) in
      Sound-update exec tasks next t (destroy_func (cancel_with (tasks t) e)) (Local-Sound exec l)
        lt (omega (arith, d, f), (e, refl), em.0) (l.waits t)
  Turn-Sound l (cancel_only {t} {e}) =
      let (lt, w, z, f) = holds_end exec l t (omega (arith, same_self t)) in
      let (d, em) = end_ok (exec t) (tasks t) (tasks t).state w (l.good t) in
      Sound-update exec tasks next t (cancel_with (tasks t) e) (Local-Sound exec l) lt
        (d, (e, refl), em.0) (l.waits t)
  Turn-Sound l (set_lock {t} {ph} {ts} s) =
      let (lt, f, p, w) = holds_lock exec l t (omega (arith, same_self t)) in
      Sound-update exec tasks next t (set_continuations (tasks t) ph ts) (Local-Sound exec l) lt
        (continuations_ok (exec t) (tasks t) (tasks t).state ph ts (inr f) (l.good t))
        (
          subst (Every (λ c. parent_of (exec c) ≡ some t)) (sym s.2) (l.waits t).0,
          λ c. absurd (cc (s.1, c)),
        )
  Turn-Sound l (flush_all {t} {ph} {ts} s) =
      let (lt, p, w) = holds_flush exec l t (omega (arith, same_self t)) in
      let f = locked→finished exec tasks t l.plain (λ z. cc) in
      Sound-update exec tasks next t (set_continuations (tasks t) ph ts) (Local-Sound exec l) lt
        (continuations_ok (exec t) (tasks t) (tasks t).state ph ts (inr f) (l.good t))
        (subst (Every (λ c. parent_of (exec c) ≡ some t)) (sym s.3) tt, λ c. s.3)
  Turn-Sound l deliver_next = Local-Sound exec l
  Turn-Sound l deliver_done = Local-Sound exec l
  Turn-Sound l (run_inline e) = Local-Sound exec l
  Turn-Sound l (keep e) = Local-Sound exec l
  Turn-Sound l (drop e h) = Local-Sound exec l
  Turn-Sound l (see_finished e) = Local-Sound exec l
  Turn-Sound l (see_unfinished e) = Local-Sound exec l
  Turn-Sound l (added {p} {c} {ph} {ts} s) =
      Sound-update exec tasks next p (set_continuations (tasks p) ph ts) (Local-Sound exec l)
        l.commands.0.0
        (continuations_ok (exec p) (tasks p) (tasks p).state ph ts (inl s.1) (l.good p))
        (
          subst (Every (λ c. parent_of (exec c) ≡ some p)) (sym s.2) (
              Every-append (λ c. parent_of (exec c) ≡ some p) (tasks p).waiting (c ∷ [])
                (l.waits p).0 (l.commands.0.1, tt)),
          λ z. absurd (s.0 (sym s.1 ∙ z)),
        )
  Turn-Sound l (rejected s) = Local-Sound exec l
  Turn-Sound l (unwrap_child {t} {child} e lc) =
      let (lt, p, f) = holds_start exec l t (omega (arith, same_self t)) in
      let (ph, d, em) = pending_ok (exec t) (tasks t) (tasks t).state p (l.good t) in
      let x = set_unwrapped (tasks t) in
      Sound-new exec (update tasks t x) next
        (Sound-update exec tasks next t x (Local-Sound exec l) lt (ph, ap suc d, f, em) (l.waits t))
  Turn-Sound l (unwrap_threw {t} e) =
      let (lt, p, f) = holds_start exec l t (omega (arith, same_self t)) in
      let (ph, d, em) = pending_ok (exec t) (tasks t) (tasks t).state p (l.good t) in
      Sound-update exec tasks next t (set_unwrapped (tasks t)) (Local-Sound exec l) lt
        (ph, ap suc d, f, em) (l.waits t)
  Turn-Sound l (work u) = Local-Sound exec l
  Turn-Sound l (abandon_handle e u) = Local-Sound exec l
  Turn-Sound l (spawn u p ne) = Sound-new exec tasks next (Local-Sound exec l)
  Turn-Sound l (then_ u e ne lt) = Sound-new exec tasks next (Local-Sound exec l)
  Turn-Sound l (new_event u e) = Sound-new exec tasks next (Local-Sound exec l)
  Turn-Sound l (set_value {t} v u lt e p) =
      let (ph, d, em) = pending_ok (exec t) (tasks t) (tasks t).state p (l.good t) in
      Sound-update exec tasks next t (record (tasks t) { state = locked }) (Local-Sound exec l) lt
        (ph, d, ap has_function e, em) (l.waits t)
  Turn-Sound l (set_exception {t} y u lt e p) =
      let (ph, d, em) = pending_ok (exec t) (tasks t) (tasks t).state p (l.good t) in
      Sound-update exec tasks next t (record (tasks t) { state = locked }) (Local-Sound exec l) lt
        (ph, d, ap has_function e, em) (l.waits t)
  Turn-Sound l (set_fails f s u e q ne) = Local-Sound exec l
