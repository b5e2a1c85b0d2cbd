-- ===== src/Task/Progress.antt =====
-- A thread that runs code of the library is never stuck.
use asyncplusplus.Prelude.{ℕ, ◌≡◌, refl, List, [], ◌∷◌, ◌++◌, arith, Bool-cases, inl, inr}
use asyncplusplus.Prelude.Among.{same_self}
use asyncplusplus.ContinuationVector.Contract.{Phase, accepting, closing, closed}
use asyncplusplus.Task.{is_finished, Scheduler, inline_, keeping, Exec, Task, scheduler_of}
use asyncplusplus.Task.Handlers.{
  Command, run, calling, run_finish, finish, cancel, cancel_base, lock, flush, deliver, schedule,
  add, try, unwrap, threw,
}
use asyncplusplus.Task.System.{
  Turn, start, return, finish_run, finish_base, cancel_run, cancel_only, set_lock, flush_all,
  deliver_next, deliver_done, run_inline, keep, see_finished, see_unfinished, added, rejected,
  unwrap_threw, World, Reach,
}
use asyncplusplus.Task.Local.{Local, holds_lock, holds_flush}
use asyncplusplus.Task.Safety.{Inv-Local, Reach-Inv}

module _ (exec : ℕ → Exec) (tasks : ℕ → Task) (next : ℕ) (stack : List Command) where
  -- The thread can do its next command.
  abbrev pub CanTurn : Command → Type 0
  CanTurn c =
      (tasks' : ℕ → Task) × (next' : ℕ) × (after : List Command) × (given : List ℕ) × Turn exec
        tasks next stack (c ∷ []) [] tasks' next' after given

  lock_turn : (t : ℕ) → (tasks t).phase ≡ accepting → CanTurn (lock t)
  lock_turn t p =
      (_, _, _, _, set_lock {t = t} {ph = closing} {ts = (tasks t).waiting} (p, refl, refl))

  flush_turn : (t : ℕ) → (tasks t).phase ≡ closing → CanTurn (flush t)
  flush_turn t p = (
    _,
    _,
    _,
    _,
    flush_all {t = t} {ph = closed} {ts = []} {flushed = (tasks t).waiting} (p, refl, refl, refl),
  )

  schedule_turn : (c : ℕ) (s : Scheduler) → scheduler_of (exec c) ≡ s → CanTurn (schedule c)
  schedule_turn c inline_ e = (_, _, _, _, run_inline e)
  schedule_turn c keeping e = (_, _, _, _, keep e)

  add_turn : (p c : ℕ) → CanTurn (add p c)
  add_turn p c = elim (Bool-cases (is_finished (tasks p).state)) [
    | inl f ↦ (_, _, _, _, see_finished f)
    | inr u ↦ (_, _, _, _, see_unfinished u)
  ]

  try_turn : (p c : ℕ) (ph : Phase) → (tasks p).phase ≡ ph → CanTurn (try p c)
  try_turn p c accepting e = (
    _,
    _,
    _,
    _,
    added {ph = (tasks p).phase} {ts = (tasks p).waiting ++ (c ∷ [])}
        (λ z. absurd (cc (e, z)), refl, refl),
  )
  try_turn p c closing e = (
    _,
    _,
    _,
    _,
    rejected {ph = (tasks p).phase} {ts = (tasks p).waiting} (λ z. absurd (cc (e, z)), refl, refl),
  )
  try_turn p c closed e = (
    _,
    _,
    _,
    _,
    rejected {ph = (tasks p).phase} {ts = (tasks p).waiting} (λ z. absurd (cc (e, z)), refl, refl),
  )

  deliver_turn : (ts : List ℕ) → CanTurn (deliver ts)
  deliver_turn [] = (_, _, _, _, deliver_done)
  deliver_turn (c ∷ ts) = (_, _, _, _, deliver_next)

  next_turn : (c : Command) → Local exec tasks next (c ∷ []) [] → CanTurn c
  next_turn (run t) l = (_, _, _, _, start)
  next_turn (calling t) l = (_, _, _, _, return (threw 0) tt)
  next_turn (run_finish t v) l = (_, _, _, _, finish_run)
  next_turn (finish t v) l = (_, _, _, _, finish_base)
  next_turn (cancel t e) l = (_, _, _, _, cancel_run)
  next_turn (cancel_base t e) l = (_, _, _, _, cancel_only)
  next_turn (lock t) l = lock_turn t (holds_lock exec l t (omega (arith, same_self t))).2
  next_turn (flush t) l = flush_turn t (holds_flush exec l t (omega (arith, same_self t))).1
  next_turn (deliver ts) l = deliver_turn ts
  next_turn (schedule c) l = schedule_turn c (scheduler_of (exec c)) refl
  next_turn (add p c) l = add_turn p c
  next_turn (try p c) l = try_turn p c (tasks p).phase refl
  next_turn (unwrap t c) l = (_, _, _, _, unwrap_threw 0)

-- Whatever the other threads did, a thread that has a command to do can do it: the lock is never
-- set twice on a continuation vector, and the flush never comes before the lock.
pub thread_advances :
    (exec : ℕ → Exec) (n : ℕ) {w : World} (left right : List (List Command)) (c : Command)
    (stack : List Command)
    → Reach exec n w
    → w.threads ≡ left ++ ((c ∷ stack) ∷ right)
    → CanTurn exec w.tasks w.next stack c
thread_advances exec n {w} left right c stack r e =
    next_turn exec w.tasks w.next stack c
      (Inv-Local exec (Reach-Inv exec n r) left right [] w.pool (c ∷ []) stack [] e refl)
