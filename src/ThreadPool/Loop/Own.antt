-- ===== src/ThreadPool/Loop/Own.antt =====
-- What a step makes of the thread that takes it.
use asyncplusplus.Prelude.{
  ℕ, ◌<◌, ◌≡◌, ◌≢◌, ap, List, [], ◌∷◌, true, false, Option, none, some, arith, inl, inr, ◌⊎◌,
  length,
}
use mathlib.Core.Path.{subst}
use asyncplusplus.Prelude.Among.{same_self}
use asyncplusplus.ThreadPool.WaitersLaws.{IsValid, join_lem}
use asyncplusplus.ThreadPool.Loop
use asyncplusplus.ThreadPool.Loop.{Inner, Move}
use asyncplusplus.ThreadPool.PoolState
use asyncplusplus.ThreadPool.PoolState.{
  Pool, Pc, top, popping, choosing, stealing, fetching, woken, running, notifying, locking, Frame,
  at, thread_task_loop, prepare_sleep, asleep_frame,
}
use asyncplusplus.ThreadPool.Loop.Inv.{quiet, in_sleep, Under, Owned, ThreadOk, Awake}

-- The thread is not blocked, or the public queue is empty.
abbrev pub Lively : Pool → List Frame → Type 0
Lively p fs = Awake p fs ⊎ (p.public_queue ≡ [])

module _ (thread_of : ℕ → ℕ) (i : ℕ) where
  abbrev Result : Pool → List Frame → Type 0
  Result p fs = ThreadOk thread_of i p fs × Lively p fs

  -- The call goes on at another point, where it does not sleep.
  stays :
      (p p' : Pool) (f : Frame) (below : List Frame) (pc : Pc)
      → ThreadOk thread_of i p (f ∷ below)
      → pc ≢ PoolState.sleeping
      → (quiet pc ≡ true → p'.deques i ≡ [])
      → Result p' (at f pc ∷ below)
  stays p p' f below pc ok ne d = (
    record {
      shape = ok.shape;
      owned = ok.owned;
      drained = d;
      listed = λ q. absurd (ne q);
      ended = tt;
    },
    inl (λ q. absurd (ne q)),
  )

  -- A call that waits for a task returns.
  resumes :
      (p : Pool) (fs : List Frame) {u : ℕ} {wait_task : Option ℕ}
      → wait_task ≡ some u
      → Under wait_task fs
      → Owned thread_of i fs
      → Result p fs
  resumes p [] e h o = absurd (subst (λ k. Under k []) e h)
  resumes p (g ∷ below) {u} e h o =
      let under : ((t : ℕ) × (g.pc ≡ running t)) × Under g.wait_task below =
        subst (λ k. Under k (g ∷ below)) e h in
      let runs = under.0.1 in
      (
        record {
          shape = under.1;
          owned = o;
          drained = λ q. absurd cc;
          listed = λ q. absurd cc;
          ended = tt;
        },
        inl (λ q. absurd cc),
      )

  ends :
      (p : Pool) (fs : List Frame) {wait_task : Option ℕ}
      → wait_task ≡ none
      → Under wait_task fs
      → p.deques i ≡ []
      → p.public_queue ≡ []
      → p.shutdown ≡ true
      → Result p fs
  ends p [] e h d q s =
      (record { shape = tt; owned = tt; drained = d; listed = tt; ended = (s, q) }, inr q)
  ends p (g ∷ below) e h d q s = absurd (subst (λ k. Under k (g ∷ below)) e h)

  sleeps :
      (p : Pool) (f : Frame) (below : List Frame)
      → ThreadOk thread_of i p (f ∷ below)
      → IsValid p.waiters
      → p.waiters.num_waiters < length p.waiters.waiters
      → f.pc ≡ fetching
      → p.public_queue ≡ []
      → Result (prepare_sleep p f) (asleep_frame f ∷ below)
  sleeps p f below ok v room pc q = (
    record {
      shape = ok.shape;
      owned = ok.owned;
      drained = λ z. ok.drained (ap quiet pc);
      listed = λ a b.
          let joined = (join_lem p.waiters f.event v room).1 f.event in
          omega (arith, joined, same_self f.event);
      ended = tt;
    },
    inr q,
  )

  inner-Result :
      {n : ℕ} {p : Pool} {f : Frame} {below fs : List Frame}
      → ThreadOk thread_of i p (f ∷ below)
      → Inner n i p f below fs
      → Result p fs
  inner-Result {p} {f} {below} ok (Loop.returns_ready a b c) = resumes p below b ok.shape ok.owned.1
  inner-Result {p} {f} {below} ok (Loop.goes_on a b) =
      stays p p f below popping ok (λ z. cc) (λ z. absurd cc)
  inner-Result {p} {f} {below} ok (Loop.finds_none a b) =
      stays p p f below choosing ok (λ z. cc) (λ z. b)
  inner-Result {p} {f} {below} ok (Loop.shuffles vs a b) =
      stays p p f below (stealing vs) ok (λ z. cc) (λ z. ok.drained (ap quiet a))
  inner-Result {p} {f} {below} ok (Loop.skips {vs} a b) =
      stays p p f below (stealing vs) ok (λ z. cc) (λ z. ok.drained (ap quiet a))
  inner-Result {p} {f} {below} ok (Loop.misses {vs} a b) =
      stays p p f below (stealing vs) ok (λ z. cc) (λ z. ok.drained (ap quiet a))
  inner-Result {p} {f} {below} ok (Loop.gives_up a) =
      stays p p f below fetching ok (λ z. cc) (λ z. ok.drained (ap quiet a))
  inner-Result {p} {f} {below} ok (Loop.exits a b c d) =
      ends p below c ok.shape (ok.drained (ap quiet a)) b d
  inner-Result {p} {f} {below} ok (Loop.sees_none {t} a b) =
      stays p p f below (running t) ok (λ z. cc) (λ z. absurd cc)
  inner-Result {p} {f} {below} ok (Loop.sees_waiters {t} a b) =
      stays p p f below (locking t) ok (λ z. cc) (λ z. absurd cc)
  inner-Result {p} {f} {below} ok (Loop.finishes a) =
      stays p p f below top ok (λ z. cc) (λ z. absurd cc)

  pub own :
      {n : ℕ} {p : Pool} {f : Frame} {below fs : List Frame} {p' : Pool}
      → ThreadOk thread_of i p (f ∷ below)
      → IsValid p.waiters
      → (in_sleep f.pc ≡ false → p.waiters.num_waiters < length p.waiters.waiters)
      → Move thread_of n i p f below fs p'
      → Result p' fs
  own ok v room (Loop.inner k) = inner-Result ok k
  own {below} ok v room (Loop.returns_signalled a b c d) = resumes _ below b ok.shape ok.owned.1
  own {p} {f} {below} ok v room (Loop.goes_on_unsignalled a b c d) =
      stays p _ f below popping ok (λ z. cc) (λ z. absurd cc)
  own {p} {f} {below} ok v room (Loop.pops {t} l a b) =
      stays p _ f below (running t) ok (λ z. cc) (λ z. absurd cc)
  own {p} {f} {below} ok v room (Loop.steals {t} l a b c d) =
      stays p _ f below (running t) ok (λ z. cc) (λ z. absurd cc)
  own {p} {f} {below} ok v room (Loop.fetches {t} a b) =
      stays p _ f below (running t) ok (λ z. cc) (λ z. absurd cc)
  own {p} {f} {below} ok v room (Loop.sleeps a b c) =
      sleeps p f below ok v (room (ap in_sleep a)) a b
  own {p} {f} {below} ok v room (Loop.wakes {events} a b) =
      stays p _ f below (woken events) ok (λ z. cc) (λ z. ok.drained (ap quiet a))
  own {below} ok v room (Loop.leaves_done a b c) = resumes _ below b ok.shape ok.owned.1
  own {p} {f} {below} ok v room (Loop.leaves a b) =
      stays p _ f below choosing ok (λ z. cc) (λ z. ok.drained (ap quiet a))
  own {p} {f} {below} ok v room (Loop.pushes {t} c a) =
      stays p _ f below (notifying t) ok (λ z. cc) (λ z. absurd cc)
  own {p} {f} {below} ok v room (Loop.notifies {t} a) =
      stays p _ f below (running t) ok (λ z. cc) (λ z. absurd cc)
  own {f} {below} ok v room (Loop.waits {t} u e a b) = (
    record {
      shape = ((t, a), ok.shape);
      owned = (b, ok.owned);
      drained = λ z. absurd cc;
      listed = λ z. absurd cc;
      ended = tt;
    },
    inl (λ z. absurd cc),
  )
