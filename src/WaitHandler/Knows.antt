-- ===== src/WaitHandler/Knows.antt =====
-- What a thread that waits for a task knows of it, and what the steps of other threads do to that.
use asyncplusplus.Prelude.{
  ℕ, ◌+◌, ◌≡◌, ◌≢◌, sym, ap, ◌∙◌, List, [], ◌∷◌, true, false, update_self, arith, inl, inr, ◌⊎◌,
}
use asyncplusplus.Prelude.Count.{count}
use asyncplusplus.TaskWaitEvent.{task_finished, signal}
use asyncplusplus.TaskWaitEvent.Laws.{IsMask, signal-nonzero}
use asyncplusplus.Task.{TaskState, is_finished}
use asyncplusplus.WaitHandler.{
  Shared, Pc, reading, creating, adding, trying, sleeping, reloading, done, set_event, Finisher,
  working, finished, running,
}

abbrev pub to_run : Finisher → List ℕ
to_run working = []
to_run finished = []
to_run (running es) = es

-- How many continuations have yet to signal the event of thread `i`.
abbrev pub held : Shared → Finisher → ℕ → ℕ
held s f i = count i s.continuations + count i (to_run f)

abbrev pub mask_of : Shared → ℕ → ℕ
mask_of s i = (s.events i).event_mask

abbrev pub Slept : Shared → Finisher → ℕ → Type 0
Slept s f i =
    ((held s f i ≡ 1) × (mask_of s i ≡ 0))
    ⊎ ((held s f i ≡ 0) × (mask_of s i ≢ 0) × (is_finished s.state ≡ true))

-- What holds of thread `i`, by its program point.
abbrev pub Knows : Shared → Finisher → ℕ → Pc → Type 0
Knows s f i reading = held s f i ≡ 0
Knows s f i creating = held s f i ≡ 0
Knows s f i adding = (held s f i ≡ 0) × (mask_of s i ≡ 0)
Knows s f i trying = (held s f i ≡ 0) × (mask_of s i ≡ 0)
Knows s f i sleeping = Slept s f i
Knows s f i reloading = (held s f i ≡ 0) × (is_finished s.state ≡ true)
Knows s f i (done r) = (held s f i ≡ 0) × (is_finished s.state ≡ true) × (r ≡ s.state)

-- What holds of the task, by the point of the thread that finishes it.
abbrev pub Stage : Shared → Finisher → Type 0
Stage s working = (is_finished s.state ≡ false) × (s.is_locked ≡ false)
Stage s finished = (is_finished s.state ≡ true) × (s.is_locked ≡ false)
Stage s (running es) = (is_finished s.state ≡ true) × (s.is_locked ≡ true) × (s.continuations ≡ [])

-- Nothing that thread `i` knows of has changed.
pub Knows-same :
    (s s' : Shared) (f f' : Finisher) (i : ℕ) (pc : Pc)
    → held s' f' i ≡ held s f i
    → mask_of s' i ≡ mask_of s i
    → s'.state ≡ s.state
    → Knows s f i pc
    → Knows s' f' i pc
Knows-same s s' f f' i reading h m e k = h ∙ k
Knows-same s s' f f' i creating h m e k = h ∙ k
Knows-same s s' f f' i adding h m e k = (h ∙ k.0, m ∙ k.1)
Knows-same s s' f f' i trying h m e k = (h ∙ k.0, m ∙ k.1)
Knows-same s s' f f' i sleeping h m e (inl k) = inl (h ∙ k.0, m ∙ k.1)
Knows-same s s' f f' i sleeping h m e (inr k) =
    inr (h ∙ k.0, (λ z. k.1 (sym m ∙ z)), ap is_finished e ∙ k.2)
Knows-same s s' f f' i reloading h m e k = (h ∙ k.0, ap is_finished e ∙ k.1)
Knows-same s s' f f' i (done r) h m e k = (h ∙ k.0, ap is_finished e ∙ k.1, k.2 ∙ sym e)

-- The state changes before the task has finished.
pub Knows-state :
    (s : Shared) (f : Finisher) (i : ℕ) (pc : Pc) (state : TaskState)
    → is_finished s.state ≡ false
    → held s working i ≡ held s f i
    → Knows s working i pc
    → Knows (record s { state = state }) f i pc
Knows-state s f i reading st off h k = sym h ∙ k
Knows-state s f i creating st off h k = sym h ∙ k
Knows-state s f i adding st off h k = (sym h ∙ k.0, k.1)
Knows-state s f i trying st off h k = (sym h ∙ k.0, k.1)
Knows-state s f i sleeping st off h (inl k) = inl (sym h ∙ k.0, k.1)
Knows-state s f i sleeping st off h (inr k) = let on = k.2 in absurd cc
Knows-state s f i reloading st off h k = let on = k.1 in absurd cc
Knows-state s f i (done r) st off h k = let on = k.1 in absurd cc

-- The continuation of a thread is run: the thread is asleep, and is woken.
pub Knows-run :
    (s : Shared) (i : ℕ) (rest : List ℕ) (pc : Pc)
    → is_finished s.state ≡ true
    → Knows s (running (i ∷ rest)) i pc
    → Knows (set_event s i (signal (s.events i) task_finished)) (running rest) i pc
unfolding count
Knows-run s i rest pc on k = run pc k
  where
    one : (held s (running (i ∷ rest)) i ≡ 1) → held s (running rest) i ≡ 0
    one h = ground (arith, h)

    some_left : held s (running (i ∷ rest)) i ≢ 0
    some_left h = ground (arith, h)

    run :
        (pc : Pc)
        → Knows s (running (i ∷ rest)) i pc
        → Knows (set_event s i (signal (s.events i) task_finished)) (running rest) i pc
    run reading k = absurd (some_left k)
    run creating k = absurd (some_left k)
    run adding k = absurd (some_left k.0)
    run trying k = absurd (some_left k.0)
    run sleeping (inl k) =
        let small : IsMask (mask_of s i) = omega (arith, k.1) in
        inr (
          one k.0,
          (λ z. signal-nonzero (s.events i) task_finished small (
              sym (
                ap (λ v. v.event_mask) (update_self s.events i (signal (s.events i) task_finished)))
              ∙ z)),
          on,
        )
    run sleeping (inr k) = absurd (some_left k.0)
    run reloading k = absurd (some_left k.0)
    run (done r) k = absurd (some_left k.0)
