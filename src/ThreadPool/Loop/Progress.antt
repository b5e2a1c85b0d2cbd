-- ===== src/ThreadPool/Loop/Progress.antt =====
-- A thread of the pool that is not blocked has a step.
use asyncplusplus.Prelude.{
  ℕ, zero, suc, ◌≡◌, ◌≢◌, refl, ap, List, [], ◌∷◌, ◌++◌, Option, none, some, arith, inl, inr, ◌⊎◌,
  ℕ_discrete, Bool-cases,
}
use asyncplusplus.Prelude.Count.{count}
use asyncplusplus.Prelude.Ranges.{inside}
use asyncplusplus.TaskWaitEvent.{task_finished, try_wait}
use asyncplusplus.TaskWaitEvent.Laws.{pending, wait-returns}
use asyncplusplus.ThreadPool.Loop
use asyncplusplus.ThreadPool.Loop.{Inner, Move}
use asyncplusplus.ThreadPool.PoolState
use asyncplusplus.ThreadPool.PoolState.{
  Pool, Pc, top, popping, choosing, stealing, fetching, woken, running, notifying, locking, Frame,
}
use asyncplusplus.ThreadPool.Loop.Inv.{mask_of, Awake}

last_view : (d : List ℕ) → (d ≡ []) ⊎ ((l : List ℕ) × (t : ℕ) × (d ≡ l ++ (t ∷ [])))
last_view [] = inl refl
last_view (x ∷ xs) = elim (last_view xs) [
  | inl e ↦ inr ([], x, ap (◌∷◌ x) e)
  | inr (l, t, e) ↦ inr (x ∷ l, t, ap (◌∷◌ x) e)
]

abbrev numbers : ℕ → List ℕ
numbers zero = []
numbers (suc n) = n ∷ numbers n

numbers_lem : (n j : ℕ) → count j (numbers n) ≡ inside 0 n j
unfolding count inside
numbers_lem zero j = ground arith
numbers_lem (suc n) j = let rest = numbers_lem n j in ground (arith, rest)

module _ (thread_of : ℕ → ℕ) (n i : ℕ) (p : Pool) (f : Frame) (below : List Frame) where
  -- The thread can take a step.
  abbrev pub Moves : Type 0
  Moves = (fs : List Frame) × (p' : Pool) × Move thread_of n i p f below fs p'

  inner-Moves : {fs : List Frame} → Inner n i p f below fs → Moves
  inner-Moves k = (_, p, Loop.inner k)

  top-Moves : f.pc ≡ top → (r : Option ℕ) → f.wait_task ≡ r → Moves
  top-Moves h none e = inner-Moves (Loop.goes_on h (inl e))
  top-Moves h (some u) e = elim (Bool-cases f.added_continuation) [
    | inl added ↦ elim (Bool-cases (try_wait (p.events f.event) task_finished).0) [
      | inl done ↦ (_, _, Loop.returns_signalled h e added done)
      | inr not_yet ↦ (_, _, Loop.goes_on_unsignalled h e added not_yet)
    ]
    | inr never ↦ inner-Moves (Loop.goes_on h (inr never))
  ]

  popping-Moves : f.pc ≡ popping → Moves
  popping-Moves h = elim (last_view (p.deques i)) [
    | inl empty ↦ inner-Moves (Loop.finds_none h empty)
    | inr (l, t, e) ↦ (_, _, Loop.pops l h e)
  ]

  stealing-Moves : (vs : List ℕ) → f.pc ≡ stealing vs → Moves
  stealing-Moves [] h = inner-Moves (Loop.gives_up h)
  stealing-Moves (v ∷ vs) h = elim (ℕ_discrete v i) [
    | yes e ↦ inner-Moves (Loop.skips h e)
    | no ne ↦ inner-Moves (Loop.misses h ne)
  ]

  empty-Moves : f.pc ≡ fetching → p.public_queue ≡ [] → (r : Option ℕ) → f.wait_task ≡ r → Moves
  empty-Moves h e (some u) q = (_, _, Loop.sleeps h e (inl (λ z. cc)))
  empty-Moves h e none q = elim (Bool-cases p.shutdown) [
    | inl off ↦ inner-Moves (Loop.exits h e q off)
    | inr on ↦ (_, _, Loop.sleeps h e (inr on))
  ]

  fetching-Moves : f.pc ≡ fetching → (l : List ℕ) → p.public_queue ≡ l → Moves
  fetching-Moves h [] e = empty-Moves h e f.wait_task refl
  fetching-Moves h (t ∷ l) e = (_, _, Loop.fetches h e)

  woken-Moves : (events : ℕ) → f.pc ≡ woken events → (r : Option ℕ) → f.wait_task ≡ r → Moves
  woken-Moves events h none e = (_, _, Loop.leaves h (inl e))
  woken-Moves events h (some u) e = elim (Bool-cases (pending events task_finished)) [
    | inl done ↦ (_, _, Loop.leaves_done h e done)
    | inr not_yet ↦ (_, _, Loop.leaves h (inr not_yet))
  ]

  notifying-Moves : (t : ℕ) → f.pc ≡ notifying t → Moves
  notifying-Moves t h = elim (ℕ_discrete p.waiters.num_waiters 0) [
    | yes z ↦ inner-Moves (Loop.sees_none h z)
    | no nz ↦ inner-Moves (Loop.sees_waiters h nz)
  ]

  moves_at : (pc : Pc) → f.pc ≡ pc → (f.pc ≡ PoolState.sleeping → mask_of p f.event ≢ 0) → Moves
  moves_at top h a = top-Moves h f.wait_task refl
  moves_at popping h a = popping-Moves h
  moves_at choosing h a = inner-Moves (Loop.shuffles (numbers n) h (numbers_lem n))
  moves_at (stealing vs) h a = stealing-Moves vs h
  moves_at fetching h a = fetching-Moves h p.public_queue refl
  moves_at PoolState.sleeping h a = (_, _, Loop.wakes h (wait-returns (p.events f.event) (a h)))
  moves_at (woken events) h a = woken-Moves events h f.wait_task refl
  moves_at (running t) h a = inner-Moves (Loop.finishes h)
  moves_at (notifying t) h a = notifying-Moves t h
  moves_at (locking t) h a = (_, _, Loop.notifies h)

-- Thread `i` can take a step.
abbrev pub Advances : (ℕ → ℕ) → ℕ → ℕ → Pool → List Frame → Type 0
Advances thread_of n i p [] = ⊥
Advances thread_of n i p (f ∷ below) = Moves thread_of n i p f below

pub Awake-Advances :
    (thread_of : ℕ → ℕ) (n i : ℕ) (p : Pool) (fs : List Frame)
    → Awake p fs
    → Advances thread_of n i p fs
Awake-Advances thread_of n i p [] a = absurd a
Awake-Advances thread_of n i p (f ∷ below) a = moves_at thread_of n i p f below f.pc refl a
