-- ===== src/ThreadPool/Loop/Masks.antt =====
-- The masks of the events after an event is set or signalled.
use asyncplusplus.Prelude.{ℕ, ◌≡◌, ◌≢◌, sym, ap, ◌∙◌, update_ne, update_self, arith, ℕ_discrete}
use mathlib.Core.Path.{subst}
use asyncplusplus.TaskWaitEvent.{TaskWaitEvent, WaitType, signal}
use asyncplusplus.TaskWaitEvent.Laws.{IsMask, signal-nonzero}
use asyncplusplus.ThreadPool.PoolState.{Pool, set_event}
use asyncplusplus.ThreadPool.Loop.Inv.{Masks, mask_of}

module _ (p : Pool) (e : ℕ) (v : TaskWaitEvent) where
  pub mask_here : mask_of (set_event p e v) e ≡ v.event_mask
  mask_here = ap (λ k. k.event_mask) (update_self p.events e v)

  pub mask_there : (a : ℕ) → e ≢ a → mask_of (set_event p e v) a ≡ mask_of p a
  mask_there a ne = ap (λ k. k.event_mask) (update_ne p.events e a v ne)

  pub set_event-Masks : IsMask v.event_mask → Masks p → Masks (set_event p e v)
  set_event-Masks h m a = elim (ℕ_discrete e a) [
    | yes q ↦ subst (λ k. IsMask (mask_of (set_event p e v) k)) q (omega (arith, mask_here, h))
    | no ne ↦ omega (arith, mask_there a ne, m a)
  ]

-- A signal empties no event.
pub signal-kept :
    (p : Pool) (e : ℕ) (t : WaitType)
    → Masks p
    → (a : ℕ) → mask_of (set_event p e (signal (p.events e) t)) a ≡ 0
    → mask_of p a ≡ 0
signal-kept p e t small a z = elim (ℕ_discrete e a) [
  | yes q ↦ absurd (
      signal-nonzero (p.events e) t (small e) (
        sym (mask_here p e (signal (p.events e) t))
        ∙ ap (mask_of (set_event p e (signal (p.events e) t))) q
        ∙ z))
  | no other ↦ sym (mask_there p e (signal (p.events e) t) a other) ∙ z
]
