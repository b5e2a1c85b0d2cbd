-- ===== src/Task/Delivery.antt =====
-- No continuation is lost, and each task has one holder.
use asyncplusplus.Prelude.{
  ℕ, zero, suc, ◌<◌, ◌≡◌, refl, ap, sym, ◌∙◌, List, [], ◌∷◌, true, false, arith, ◌⊎◌, inl, inr,
  Every, Bool-cases,
}
use asyncplusplus.Prelude.Sum.{sum, sum_to, sum_to-positive}
use asyncplusplus.ContinuationVector.Contract.{Phase, accepting, closing, closed}
use asyncplusplus.Task.{
  TaskState, pending, locked, unwrapped, completed, canceled, is_finished, Exec, root, on_value,
  on_task, forward, event, Task,
}
use asyncplusplus.Task.Handlers.{Command}
use asyncplusplus.Task.System.{World, Reach}
use asyncplusplus.Task.Weights.{
  Weight, starts, ends, locks, flushes, of_stack, of_handles, of_vectors, load, wanted_start,
  wanted_end, wanted_lock, wanted_flush, unlocked,
}
use asyncplusplus.Task.Balance.{wanted-made}
use asyncplusplus.Task.Local.{start_of, end_of, lock_of, flush_of}
use asyncplusplus.Task.Safety.{Reach-Inv}

-- The threads, vectors and schedulers together hold each task exactly as often as its state wants:
-- a pending task with a function once, an unwrapped task or an event that is being set once, and a
-- finished task not at all but, until its continuations are flushed, by the one thread that does so.
pub one_holder :
    (exec : ℕ → Exec) (n : ℕ) {w : World} (t : ℕ)
    → Reach exec n w
    → t < w.next
    → (load (starts t) w ≡ wanted_start (exec t) (w.tasks t).state)
      × (load (ends exec t) w ≡ wanted_end (w.tasks t).state)
      × (load (locks t) w ≡ wanted_lock (w.tasks t).state (w.tasks t).phase)
      × (load (flushes t) w ≡ wanted_flush (w.tasks t).phase)
one_holder exec n {w} t r lt =
    let v = Reach-Inv exec n r in
    (
      v.start_eq t ∙ wanted-made (start_of exec) w.tasks w.next t lt,
      v.end_eq t ∙ wanted-made (end_of exec) w.tasks w.next t lt,
      v.lock_eq t ∙ wanted-made (lock_of exec) w.tasks w.next t lt,
      v.flush_eq t ∙ wanted-made (flush_of exec) w.tasks w.next t lt,
    )

-- No thread is in the library, and the schedulers keep no task.
pub record Idle (w : World) : Type 0 where
  pub no_command : Every (λ s. s ≡ []) w.threads
  pub no_handle : w.pool ≡ []

idle_threads :
    (weight : Weight) (ss : List (List Command))
    → Every (λ s. s ≡ []) ss
    → sum (of_stack weight) ss ≡ 0
idle_threads weight [] h = refl
idle_threads weight (s ∷ ss) h = omega (arith, idle_threads weight ss h.1, ap (of_stack weight) h.0)

load-Idle :
    (weight : Weight) {w : World} → Idle w → load weight w ≡ of_vectors weight w.tasks w.next
unfolding load
load-Idle weight {w} i =
    omega (arith, idle_threads weight w.threads i.no_command, ap (of_handles weight) i.no_handle)

-- A continuation vector of an unfinished task that holds something.
abbrev pub Waits : Weight → World → Type 0
Waits weight w =
    (p : ℕ) × (p < w.next)
    × (is_finished (w.tasks p).state ≡ false)
    × (0 < of_handles weight (w.tasks p).waiting)

finished_lock : (s : TaskState) (ph : Phase) → is_finished s ≡ true → wanted_lock s ph ≡ unlocked ph
unfolding is_finished
finished_lock completed ph e = refl
finished_lock canceled ph e = refl
finished_lock pending ph e = absurd cc
finished_lock locked ph e = absurd cc
finished_lock unwrapped ph e = absurd cc

flushed_phase : (ph : Phase) → unlocked ph ≡ 0 → wanted_flush ph ≡ 0 → ph ≡ closed
flushed_phase accepting a b = absurd (omega arith)
flushed_phase closing a b = absurd (omega arith)
flushed_phase closed a b = refl

no_locks : (tasks : ℕ → Task) (t k : ℕ) → of_vectors (locks t) tasks k ≡ 0
unfolding sum_to
no_locks tasks t zero = refl
no_locks tasks t (suc k) = omega (arith, no_locks tasks t k, no_weight (tasks k).waiting)
  where
    no_weight : (ts : List ℕ) → sum (λ u. 0) ts ≡ 0
    no_weight [] = refl
    no_weight (x ∷ xs) = omega (arith, no_weight xs)

module _ (exec : ℕ → Exec) (n : ℕ) {w : World} where
  -- The vector of a finished task is empty when no thread is left to flush it.
  finished_empty :
      (p : ℕ)
      → Reach exec n w
      → Idle w
      → p < w.next
      → is_finished (w.tasks p).state ≡ true
      → (w.tasks p).waiting ≡ []
  finished_empty p r i lt f =
      let (s, e, l, fl) = one_holder exec n p r lt in
      let z = no_locks w.tasks p w.next in
      let lk = sym (finished_lock (w.tasks p).state (w.tasks p).phase f) in
      let closed_now =
        flushed_phase (w.tasks p).phase (omega (arith, lk, l, load-Idle (locks p) i, z))
          (omega (arith, fl, load-Idle (flushes p) i, z)) in
      ((Reach-Inv exec n r).sound.waits p).1 closed_now

  held_by :
      (weight : Weight)
      → Reach exec n w
      → Idle w
      → 0 < of_vectors weight w.tasks w.next
      → Waits weight w
  held_by weight r i pos =
      let (p, lt, q) = sum_to-positive (λ u. of_handles weight (w.tasks u).waiting) w.next pos in
      elim (Bool-cases (is_finished (w.tasks p).state)) [
        | inl f ↦ absurd (omega (arith, q, ap (of_handles weight) (finished_empty p r i lt f)))
        | inr u ↦ (p, lt, u, q)
      ]

abbrev pub Reason : Exec → World → ℕ → TaskState → (ℕ → Exec) → Type 0
Reason ex w t s exec = ((ex ≡ event) × (s ≡ pending)) ⊎ (Waits (starts t) w ⊎ Waits (ends exec t) w)

unfinished-Reason :
    (ex : Exec) (w : World) (t : ℕ) (s : TaskState) (exec : ℕ → Exec)
    → is_finished s ≡ false
    → (0 < wanted_start ex s → Waits (starts t) w)
    → (0 < wanted_end s → Waits (ends exec t) w)
    → Reason ex w t s exec
unfolding is_finished
unfinished-Reason (root sc u) w t pending exec f a b = inr (inl (a (omega arith)))
unfinished-Reason (on_value sc u p) w t pending exec f a b = inr (inl (a (omega arith)))
unfinished-Reason (on_task sc u p) w t pending exec f a b = inr (inl (a (omega arith)))
unfinished-Reason (forward p c) w t pending exec f a b = inr (inl (a (omega arith)))
unfinished-Reason event w t pending exec f a b = inl (refl, refl)
unfinished-Reason ex w t locked exec f a b = inr (inr (b (omega arith)))
unfinished-Reason ex w t unwrapped exec f a b = inr (inr (b (omega arith)))
unfinished-Reason ex w t completed exec f a b = absurd cc
unfinished-Reason ex w t canceled exec f a b = absurd cc

-- When no thread is in the library and the schedulers keep no task, a task that has not finished is
-- an event that has not been set, or waits in the continuation vector of a task that has not
-- finished either: itself, or the forwarding continuation of the task that it unwraps.
pub unfinished_waits :
    (exec : ℕ → Exec) (n : ℕ) {w : World} (t : ℕ)
    → Reach exec n w
    → Idle w
    → t < w.next
    → is_finished (w.tasks t).state ≡ false
    → Reason (exec t) w t (w.tasks t).state exec
unfinished_waits exec n {w} t r i lt f =
    let (s, e, l, fl) = one_holder exec n t r lt in
    unfinished-Reason (exec t) w t (w.tasks t).state exec f
      (λ pos. held_by exec n (starts t) r i (omega (arith, s, pos, load-Idle (starts t) i)))
      (λ pos. held_by exec n (ends exec t) r i (omega (arith, e, pos, load-Idle (ends exec t) i)))
