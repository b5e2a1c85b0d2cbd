-- ===== src/ThreadPool/Loop/Awake.antt =====
-- Which threads are awake after `schedule` and the destructor have signalled events.
use asyncplusplus.Prelude.{
  ℕ, ◌≤◌, ◌<◌, ◌≡◌, ◌≢◌, refl, sym, ap, ◌∙◌, List, [], ◌∷◌, false, Option, none, some, arith, inl,
  inr, ◌⊎◌, ℕ_discrete,
}
use mathlib.Core.Path.{subst}
use asyncplusplus.Prelude.Among.{same_self}
use asyncplusplus.Prelude.Count.{count}
use asyncplusplus.TaskWaitEvent.{task_available, signal}
use asyncplusplus.TaskWaitEvent.Laws.{IsMask}
use asyncplusplus.ThreadPool.Waiters.{Waiters}
use asyncplusplus.ThreadPool.WaitersLaws.{sleeping}
use asyncplusplus.ThreadPool.WaitersSlots.{Woke}
use asyncplusplus.ThreadPool.PoolState.{Pool, Frame, set_event, wake, signal_all}
use asyncplusplus.ThreadPool.Loop.Inv.{mask_of, Masks, Asleep, Awake, ThreadOk, ListOk, Busy}
use asyncplusplus.TaskWaitEvent.Laws.{signal-nonzero}
use asyncplusplus.ThreadPool.Loop.Masks.{mask_here, mask_there}
use asyncplusplus.ThreadPool.Loop.Counts.{signal-Masks}

-- Every event of the list is signalled.
pub signal_all_lem :
    (es : List ℕ) (p : Pool)
    → Masks p
    → ((a : ℕ) → IsMask (signal_all es p.events a).event_mask)
      × ((a : ℕ) → (mask_of p a ≢ 0) ⊎ (1 ≤ count a es) → (signal_all es p.events a).event_mask ≢ 0)
unfolding count
signal_all_lem [] p m = (m, λ a h. elim h [ inl ne ↦ ne | inr le ↦ absurd (omega (arith, le)) ])
signal_all_lem (e ∷ es) p m =
    let v = signal (p.events e) task_available in
    let (small, rest) = signal_all_lem es (set_event p e v) (signal-Masks p e task_available m) in
    (
      small,
      λ a h. elim (ℕ_discrete e a) [
        | yes q ↦ rest a (
            inl (λ z.
              signal-nonzero (p.events e) task_available (m e)
                (sym (mask_here p e v) ∙ ap (mask_of (set_event p e v)) q ∙ z)))
        | no ne ↦ elim h [
          | inl before ↦ rest a (inl (λ z. before (sym (mask_there p e v a ne) ∙ z)))
          | inr later ↦ rest a (inr (ground (arith, later, ne)))
        ]
      ],
    )

Awake-mono :
    (p p' : Pool) (fs : List Frame)
    → ((e : ℕ) → mask_of p' e ≡ 0 → mask_of p e ≡ 0)
    → Awake p fs
    → Awake p' fs
Awake-mono p p' [] h a = absurd a
Awake-mono p p' (f ∷ below) h a = λ q z. a q (h f.event z)

pub Busy-mono :
    (n : ℕ) (stacks : ℕ → List Frame) (p p' : Pool)
    → (p'.public_queue ≡ p.public_queue)
    → ((e : ℕ) → mask_of p' e ≡ 0 → mask_of p e ≡ 0)
    → Busy n stacks p
    → Busy n stacks p'
Busy-mono n stacks p p' same_queue h busy = λ full.
    let (j, lt, a) = busy (λ e. full (same_queue ∙ e)) in (j, lt, Awake-mono p p' (stacks j) h a)

-- The thread whose event is signalled is awake.
pub Awake-signalled :
    (p : Pool) (e : ℕ) (fs : List Frame) → mask_of p e ≢ 0 → Asleep fs e → Awake p fs
Awake-signalled p e [] ne h = absurd h
Awake-signalled p e (f ∷ below) ne h = λ q z. ne (ap (mask_of p) (sym h.0) ∙ z)

sleeping-none : (w : Waiters) (e : ℕ) → w.num_waiters ≡ 0 → sleeping w e ≡ 0
unfolding sleeping
sleeping-none w e z = rw z refl

module _ (thread_of : ℕ → ℕ) (n : ℕ) (some_thread : 0 < n) where
  -- If no thread is on the list, none sleeps.
  Awake-all :
      (i : ℕ) (p : Pool) (fs : List Frame)
      → p.shutdown ≡ false
      → p.waiters.num_waiters ≡ 0
      → ThreadOk thread_of i p fs
      → Awake p fs
  Awake-all i p [] off z ok = let on = ok.ended.0 in absurd cc
  Awake-all i p (f ∷ below) off z ok = λ q m.
      let listed = ok.listed q m in
      absurd (omega (arith, listed, sleeping-none p.waiters f.event z))

  pub wakes_someone :
      (stacks : ℕ → List Frame) (p p' : Pool) (r : Option ℕ) (ws : Waiters)
      → Masks p
      → p.shutdown ≡ false
      → ((i : ℕ) → i < n → ThreadOk thread_of i p (stacks i))
      → ListOk thread_of n stacks p.waiters
      → p'.events ≡ p.events
      → Woke p.waiters r ws
      → (j : ℕ) × (j < n) × Awake (wake p' r ws) (stacks j)
  wakes_someone stacks p p' none ws m off ok list e woke = (
    0,
    some_thread,
    Awake-mono p (wake p' none ws) (stacks 0) (λ a z. sym (ap (λ k. (k a).event_mask) e) ∙ z)
        (Awake-all 0 p (stacks 0) off woke.1 (ok 0 some_thread)),
  )
  wakes_someone stacks p p' (some first) ws m off ok list e (valid, len, out) =
      let listed : 1 ≤ sleeping p.waiters first = omega (arith, out first, same_self first) in
      (
        thread_of first,
        (list.holds first listed).0,
        Awake-signalled (wake p' (some first) ws) first (stacks (thread_of first))
            (λ z.
              signal-nonzero (p'.events first) task_available
                (subst (λ k. IsMask (k first).event_mask) (sym e) (m first))
                (sym (mask_here p' first (signal (p'.events first) task_available)) ∙ z))
            (list.holds first listed).1,
      )
