-- ===== src/WaitHandler/Laws.antt =====
-- What a thread that waits for a task may rely on.
use asyncplusplus.Prelude.{
  ℕ, ◌≡◌, ◌≢◌, refl, sym, ap, ◌∙◌, [], ◌∷◌, ◌++◌, true, false, Option, none, some, update,
  update_ne, update_self, arith, inl, inr, ℕ_discrete,
}
use mathlib.Core.Path.{subst}
use asyncplusplus.Prelude.Count.{count, count-append}
use asyncplusplus.TaskWaitEvent
use asyncplusplus.TaskWaitEvent.{TaskWaitEvent, task_finished, new_event, wait, signal}
use asyncplusplus.TaskWaitEvent.Laws.{signal-nonzero, wait-returns}
use asyncplusplus.Task.{TaskState, is_finished}
use asyncplusplus.WaitHandler
use asyncplusplus.WaitHandler.{
  Shared, Pc, reading, creating, adding, trying, sleeping, reloading, done, set_event, WaitMove,
  Finisher, working, finished, running, FinishMove, World, Step, waits, acts, Reach, begin, later,
}
use asyncplusplus.WaitHandler.Knows.{
  held, mask_of, Slept, Knows, Stage, Knows-same, Knows-state, Knows-run,
}

abbrev Good : World → Type 0
Good w = ((i : ℕ) → Knows w.shared w.finisher i (w.threads i)) × Stage w.shared w.finisher

-- A waiting thread leaves the task as it is.
Stage-same :
    (s s' : Shared) (f : Finisher)
    → s'.state ≡ s.state
    → s'.is_locked ≡ s.is_locked
    → (s.is_locked ≡ true → s'.continuations ≡ s.continuations)
    → Stage s f
    → Stage s' f
Stage-same s s' working e l c g = (ap is_finished e ∙ g.0, l ∙ g.1)
Stage-same s s' finished e l c g = (ap is_finished e ∙ g.0, l ∙ g.1)
Stage-same s s' (running es) e l c g = (ap is_finished e ∙ g.0, l ∙ g.1, c g.1 ∙ g.2)

locked-finished :
    (s : Shared) (f : Finisher) → Stage s f → s.is_locked ≡ true → is_finished s.state ≡ true
locked-finished s working g h = absurd cc
locked-finished s finished g h = g.0
locked-finished s (running es) g h = g.0

init-zero : (TaskWaitEvent.init new_event).event_mask ≡ 0
unfolding TaskWaitEvent.init
init-zero = refl

wait-nonzero : (v : TaskWaitEvent) (m : ℕ) → (wait v).0 ≡ some m → v.event_mask ≢ 0
unfolding wait
wait-nonzero v m e z = let q : none ≡ Option.some m = sym (rw z refl) ∙ e in cc

module _ (threads : ℕ → Pc) (f : Finisher) (i : ℕ) (s : Shared)
    (good : Good (record { threads = threads; finisher = f; shared = s })) where
  abbrev After : Pc → Shared → Type 0
  After pc s' = Good (record { threads = update threads i pc; finisher = f; shared = s' })

  known : (pc : Pc) → threads i ≡ pc → Knows s f i pc
  known pc e = subst (Knows s f i) e (good.0 i)

  -- Thread `i` takes a step to `pc`, and leaves the other threads what they know.
  moved :
      (pc : Pc) (s' : Shared)
      → Knows s' f i pc
      → ((j : ℕ) → i ≢ j → (held s' f j ≡ held s f j) × (mask_of s' j ≡ mask_of s j))
      → s'.state ≡ s.state
      → Stage s' f
      → After pc s'
  moved pc s' here there e stage = (
    (λ j. elim (ℕ_discrete i j) [
      | yes q ↦
          subst (λ k. Knows s' f k (update threads i pc k)) q
            (subst (Knows s' f i) (sym (update_self threads i pc)) here)
      | no other ↦
          subst (Knows s' f j) (sym (update_ne threads i j pc other))
            (Knows-same s s' f f j (threads j) (there j other).0 (there j other).1 e (good.0 j))
    ]),
    stage,
  )

  -- Only the event of thread `i` changes.
  event_moved :
      (pc : Pc) (v : TaskWaitEvent) → Knows (set_event s i v) f i pc → After pc (set_event s i v)
  event_moved pc v here =
      moved pc (set_event s i v) here
        (λ j other. (refl, ap (λ k. k.event_mask) (update_ne s.events i j v other))) refl
        (Stage-same s (set_event s i v) f refl refl (λ z. refl) good.1)

  mask_here : (v : TaskWaitEvent) → mask_of (set_event s i v) i ≡ v.event_mask
  mask_here v = ap (λ k. k.event_mask) (update_self s.events i v)

  stayed : (pc : Pc) → Knows s f i pc → After pc s
  stayed pc here = moved pc s here (λ j other. (refl, refl)) refl good.1

  added :
      threads i ≡ trying
      → s.is_locked ≡ false
      → After sleeping (record s { continuations = s.continuations ++ (i ∷ []) })
  unfolding count
  added e off =
      let (none_held, zero_mask) = known trying e in
      moved sleeping (record s { continuations = s.continuations ++ (i ∷ []) })
        (inl (ground (arith, none_held, count-append i s.continuations (i ∷ [])), zero_mask))
        (λ j other. (
          let appended = count-append j s.continuations (i ∷ []) in ground (arith, appended, other),
          refl,
        ))
        refl
        (Stage-same s (record s { continuations = s.continuations ++ (i ∷ []) }) f refl refl
          (λ on. absurd cc) good.1)

  added_late :
      (held s f i ≡ 0) × (mask_of s i ≡ 0)
      → is_finished s.state ≡ true
      → After sleeping (set_event s i (signal (s.events i) task_finished))
  added_late (none_held, zero_mask) on = event_moved sleeping (signal (s.events i) task_finished) (
      inr (
        none_held,
        (λ z.
            signal-nonzero (s.events i) task_finished (omega (arith, zero_mask))
              (sym (mask_here (signal (s.events i) task_finished)) ∙ z)),
        on,
      ))

  woken :
      {m : ℕ}
      → threads i ≡ sleeping
      → (wait (s.events i)).0 ≡ some m
      → After reloading (set_event s i (wait (s.events i)).1)
  woken {m} e h = event_moved reloading (wait (s.events i)).1 (elim (known sleeping e) [
    | inl k ↦ absurd (wait-nonzero (s.events i) m h k.1)
    | inr k ↦ (k.0, k.2)
  ])

  wait-Good : (pc pc' : Pc) (s' : Shared) → threads i ≡ pc → WaitMove i s pc pc' s' → After pc' s'
  wait-Good pc pc' s' e (WaitHandler.finds_finished h) =
      stayed (done s.state) (known reading e, h, refl)
  wait-Good pc pc' s' e (WaitHandler.finds_unfinished h) = stayed creating (known reading e)
  wait-Good pc pc' s' e WaitHandler.creates =
      event_moved adding (TaskWaitEvent.init new_event)
        (known creating e, mask_here (TaskWaitEvent.init new_event) ∙ init-zero)
  wait-Good pc pc' s' e (WaitHandler.adds h) = added e h
  wait-Good pc pc' s' e (WaitHandler.adds_late h) =
      added_late (known trying e) (locked-finished s f good.1 h)
  wait-Good pc pc' s' e (WaitHandler.finds_done h) = added_late (known adding e) h
  wait-Good pc pc' s' e (WaitHandler.finds_not_done h) = stayed trying (known adding e)
  wait-Good pc pc' s' e (WaitHandler.wakes h) = woken e h
  wait-Good pc pc' s' e WaitHandler.reloads =
      stayed (done s.state) ((known reloading e).0, (known reloading e).1, refl)

module _ (threads : ℕ → Pc) (s : Shared) where
  finish-Good :
      (f f' : Finisher) (s' : Shared)
      → Good (record { threads = threads; finisher = f; shared = s })
      → FinishMove s f f' s'
      → Good (record { threads = threads; finisher = f'; shared = s' })
  unfolding count
  finish-Good f f' s' good (WaitHandler.works st h) =
      ((λ i. Knows-state s working i (threads i) st good.1.0 refl (good.0 i)), (h, good.1.1))
  finish-Good f f' s' good (WaitHandler.finishes st h) =
      ((λ i. Knows-state s finished i (threads i) st good.1.0 refl (good.0 i)), (h, good.1.1))
  finish-Good f f' s' good WaitHandler.flushes = (
    (λ i.
        Knows-same s (record s { is_locked = true; continuations = [] }) finished
          (running s.continuations) i (threads i) (omega arith) refl refl (good.0 i)),
    (good.1.0, refl, refl),
  )
  finish-Good f f' s' good (WaitHandler.runs {i = j} {rest}) = (
    (λ i. elim (ℕ_discrete j i) [
      | yes q ↦
          subst
            (λ k.
              Knows (set_event s j (signal (s.events j) task_finished)) (running rest) k
                (threads k))
            q (Knows-run s j rest (threads j) good.1.0 (good.0 j))
      | no other ↦
          Knows-same s (set_event s j (signal (s.events j) task_finished)) (running (j ∷ rest))
            (running rest) i (threads i) (ground (arith, other))
            (ap (λ k. k.event_mask)
              (update_ne s.events j i (signal (s.events j) task_finished) other))
            refl (good.0 i)
    ]),
    good.1,
  )

reach-Good : {w : World} → Reach w → Good w
unfolding count is_finished
reach-Good begin = ((λ i. omega arith), (refl, refl))
reach-Good (later {w} r (waits i m)) =
    wait-Good w.threads w.finisher i w.shared (reach-Good r) _ _ _ refl m
reach-Good (later {w} r (acts m)) = finish-Good w.threads w.shared _ _ _ (reach-Good r) m

-- In every reachable state of any number of threads that wait for a task, a wait that has returned
-- did so with the state of the task, which has finished, and no continuation is left that would
-- signal the event of that wait, which is gone.
pub wait_returns :
    (w : World) (i : ℕ) (result : TaskState)
    → Reach w
    → w.threads i ≡ done result
    → (is_finished result ≡ true) × (result ≡ w.shared.state) × (held w.shared w.finisher i ≡ 0)
wait_returns w i result r e =
    let (none_held, on, same) : Knows w.shared w.finisher i (done result) =
      subst (Knows w.shared w.finisher i) e ((reach-Good r).0 i) in
    (ap is_finished same ∙ on, same, none_held)

-- In every reachable state in which the continuations of the task have been run, a thread that is
-- asleep for it has been signalled: its `event.wait` returns.
pub wait_ends :
    (w : World) (i : ℕ)
    → Reach w
    → w.finisher ≡ running []
    → w.threads i ≡ sleeping
    → (m : ℕ) × ((wait (w.shared.events i)).0 ≡ some m)
unfolding count
wait_ends w i r e asleep =
    let good : Good w = reach-Good r in
    let stage : Stage w.shared (running []) = subst (Stage w.shared) e good.1 in
    let known : Slept w.shared (running []) i =
      subst (λ f. Slept w.shared f i) e (subst (Knows w.shared w.finisher i) asleep (good.0 i)) in
    elim known [
      | inl k ↦ let empty = ap (count i) stage.2 in absurd (omega (arith, k.0, empty))
      | inr k ↦ (mask_of w.shared i, wait-returns (w.shared.events i) k.1)
    ]
