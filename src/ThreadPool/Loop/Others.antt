-- ===== src/ThreadPool/Loop/Others.antt =====
-- What a step leaves to the threads that did not take it.
use asyncplusplus.Prelude.{
  ℕ, ◌≤◌, ◌<◌, ◌≡◌, ◌≢◌, refl, sym, ap, ◌∙◌, List, [], ◌∷◌, ◌++◌, false, Option, none, some, update,
  update_ne, arith, ℕ_discrete, inl, inr, ◌⊎◌, length,
}
use mathlib.Core.Path.{subst}
use asyncplusplus.TaskWaitEvent
use asyncplusplus.TaskWaitEvent.{
  TaskWaitEvent, WaitType, task_finished, task_available, new_event, wait, try_wait, signal, value,
}
use asyncplusplus.ThreadPool.Waiters.{Waiters, join, leave, wake_one}
use asyncplusplus.ThreadPool.WaitersLaws.{sleeping, IsValid, join_lem, leave_lem}
use asyncplusplus.ThreadPool.Loop
use asyncplusplus.ThreadPool.Loop.{Move}
use asyncplusplus.ThreadPool.PoolState.{Pool, Frame, set_event, wake, notify, fetch, prepare_sleep}
use asyncplusplus.ThreadPool.WaitersSlots.{Woke, wake_one-Woke}
use asyncplusplus.TaskWaitEvent.Laws.{signal-nonzero}
use asyncplusplus.ThreadPool.Loop.Masks.{mask_here, mask_there, signal-kept}
use asyncplusplus.ThreadPool.Loop.Inv.{Masks, mask_of, in_sleep}
use asyncplusplus.ThreadPool.Loop.Gentle.{Gentle}

module _ (thread_of : ℕ → ℕ) (i : ℕ) where
  pub Gentle-same : (p : Pool) → Gentle thread_of i p p
  Gentle-same p = record {
    deques = λ j ne e. e;
    masks = λ e ne z. z;
    list = λ e ne z h. h;
    shutdown = λ z. z;
    public_queue = λ z e. e;
  }

  -- Thread `i` changes its own event.
  pub Gentle-event :
      (p : Pool) (e : ℕ) (v : TaskWaitEvent)
      → thread_of e ≡ i
      → Gentle thread_of i p (set_event p e v)
  Gentle-event p e v o = record {
    deques = λ j ne z. z;
    masks = λ a ne z. sym (mask_there p e v a (λ q. ne (ap thread_of (sym q) ∙ o))) ∙ z;
    list = λ a ne z h. h;
    shutdown = λ z. z;
    public_queue = λ z q. q;
  }

  -- An event of any thread is signalled.
  pub Gentle-signal :
      (p : Pool) (e : ℕ) (t : WaitType)
      → Masks p
      → Gentle thread_of i p (set_event p e (signal (p.events e) t))
  Gentle-signal p e t small = record {
    deques = λ j ne z. z;
    masks = λ a ne z. signal-kept p e t small a z;
    list = λ a ne z h. h;
    shutdown = λ z. z;
    public_queue = λ z q. q;
  }

  pub Gentle-trans :
      {p p' p'' : Pool}
      → Gentle thread_of i p p'
      → Gentle thread_of i p' p''
      → Gentle thread_of i p p''
  Gentle-trans g h = record {
    deques = λ j ne z. h.deques j ne (g.deques j ne z);
    masks = λ e ne z. g.masks e ne (h.masks e ne z);
    list = λ e ne z k. h.list e ne z (g.list e ne (h.masks e ne z) k);
    shutdown = λ z. h.shutdown (g.shutdown z);
    public_queue = λ z e. h.public_queue (g.shutdown z) (g.public_queue z e);
  }

  -- Only entries of thread `i` leave the list.
  Gentle-list :
      (p : Pool) (ws : Waiters)
      → ((e : ℕ) → thread_of e ≢ i → 1 ≤ sleeping p.waiters e → 1 ≤ sleeping ws e)
      → Gentle thread_of i p (record p { waiters = ws })
  Gentle-list p ws h = record {
    deques = λ j ne z. z;
    masks = λ e ne z. z;
    list = λ e ne z k. h e ne k;
    shutdown = λ z. z;
    public_queue = λ z e. e;
  }

  Gentle-wake :
      (p : Pool) (r : Option ℕ) (ws : Waiters)
      → Masks p
      → Woke p.waiters r ws
      → Gentle thread_of i p (wake p r ws)
  Gentle-wake p none ws m (e, z) =
      Gentle-list p ws (λ a ne h. subst (λ k. 1 ≤ sleeping k a) (sym e) h)
  Gentle-wake p (some first) ws m (valid, len, off) =
      let g = Gentle-signal p first task_available m in
      record {
        deques = g.deques;
        masks = g.masks;
        list = λ a ne z h. elim (ℕ_discrete a first) [
          | yes q ↦ absurd (
              signal-nonzero (p.events first) task_available (m first) (
                sym (mask_here p first (signal (p.events first) task_available))
                ∙ ap (mask_of (set_event p first (signal (p.events first) task_available))) (sym q)
                ∙ z))
          | no other ↦ let o = off a in ground (arith, o, h, other)
        ];
        shutdown = g.shutdown;
        public_queue = g.public_queue;
      }

  pub Gentle-notify : (p : Pool) → Masks p → IsValid p.waiters → Gentle thread_of i p (notify p)
  Gentle-notify p m v =
      Gentle-wake p (wake_one p.waiters).0 (wake_one p.waiters).1 m (wake_one-Woke p.waiters v)

  Gentle-leave :
      (p : Pool) (e : ℕ)
      → thread_of e ≡ i
      → IsValid p.waiters
      → Gentle thread_of i p (record p { waiters = leave p.waiters e })
  Gentle-leave p e o v = Gentle-list p (leave p.waiters e) (λ a ne h.
      let left = (leave_lem p.waiters e v).1 a in
      let other : a ≢ e = (λ q. ne (ap thread_of q ∙ o)) in ground (arith, left, h, other))

  Gentle-join :
      (p : Pool) (e : ℕ)
      → IsValid p.waiters
      → p.waiters.num_waiters < length p.waiters.waiters
      → Gentle thread_of i p (record p { waiters = join p.waiters e })
  Gentle-join p e v room =
      Gentle-list p (join p.waiters e)
        (λ a ne h. omega (arith, (join_lem p.waiters e v room).1 a, h))

  Gentle-deque :
      (p : Pool) (v : ℕ) (d given taken : List ℕ)
      → (v ≡ i) ⊎ (p.deques v ≢ [])
      → Gentle thread_of i p
          (record p { deques = update p.deques v d; given = given; taken = taken })
  Gentle-deque p v d given taken h = record {
    deques = λ j ne z. elim (ℕ_discrete v j) [
      | yes q ↦ absurd (elim h [ inl own ↦ ne (sym q ∙ own) | inr full ↦ full (ap p.deques q ∙ z) ])
      | no other ↦ update_ne p.deques v j d other ∙ z
    ];
    masks = λ e ne z. z;
    list = λ e ne z k. k;
    shutdown = λ z. z;
    public_queue = λ z e. e;
  }

  Gentle-fetch :
      (p : Pool) (t : ℕ) (l : List ℕ) → p.public_queue ≡ t ∷ l → Gentle thread_of i p (fetch p t l)
  Gentle-fetch p t l q = record {
    deques = λ j ne z. z;
    masks = λ e ne z. z;
    list = λ e ne z k. k;
    shutdown = λ z. z;
    public_queue = λ z e. absurd (cc);
  }

  Gentle-sleep :
      (p : Pool) (f : Frame)
      → thread_of f.event ≡ i
      → IsValid p.waiters
      → p.waiters.num_waiters < length p.waiters.waiters
      → Gentle thread_of i p (prepare_sleep p f)
  Gentle-sleep p f o v room =
      let g = Gentle-event p f.event (TaskWaitEvent.init (p.events f.event)) o in
      let h = Gentle-join p f.event v room in
      record {
        deques = g.deques;
        masks = g.masks;
        list = λ e ne z k. h.list e ne (g.masks e ne z) k;
        shutdown = g.shutdown;
        public_queue = g.public_queue;
      }

  pub Move-Gentle :
      {n : ℕ} {p : Pool} {f : Frame} {below fs : List Frame} {p' : Pool}
      → thread_of f.event ≡ i
      → Masks p
      → IsValid p.waiters
      → (in_sleep f.pc ≡ false → p.waiters.num_waiters < length p.waiters.waiters)
      → Move thread_of n i p f below fs p'
      → Gentle thread_of i p p'
  Move-Gentle {p} o m v room (Loop.inner k) = Gentle-same p
  Move-Gentle {p} {f} o m v room (Loop.returns_signalled a b c d) =
      Gentle-event p f.event (try_wait (p.events f.event) task_finished).1 o
  Move-Gentle {p} {f} o m v room (Loop.goes_on_unsignalled a b c d) =
      Gentle-event p f.event (try_wait (p.events f.event) task_finished).1 o
  Move-Gentle {p} o m v room (Loop.pops {t} l a b) =
      Gentle-deque p i l p.given (t ∷ p.taken) (inl refl)
  Move-Gentle {p} o m v room (Loop.steals {v = u} {t} l a b c d) =
      Gentle-deque p u l p.given (t ∷ p.taken) (inr (λ z. absurd cc))
  Move-Gentle {p} o m v room (Loop.fetches {t} {l} a b) = Gentle-fetch p t l b
  Move-Gentle {p} {f} o m v room (Loop.sleeps a b c) = Gentle-sleep p f o v (room (ap in_sleep a))
  Move-Gentle {p} {f} o m v room (Loop.wakes a b) =
      Gentle-event p f.event (wait (p.events f.event)).1 o
  Move-Gentle {p} {f} o m v room (Loop.leaves_done a b c) = Gentle-leave p f.event o v
  Move-Gentle {p} {f} o m v room (Loop.leaves a b) = Gentle-leave p f.event o v
  Move-Gentle {p} o m v room (Loop.pushes c a) =
      Gentle-deque p i (p.deques i ++ (c ∷ [])) (c ∷ p.given) p.taken (inl refl)
  Move-Gentle {p} o m v room (Loop.notifies a) = Gentle-notify p m v
  Move-Gentle {p} o m v room (Loop.waits u e a b) = Gentle-event p e new_event b
