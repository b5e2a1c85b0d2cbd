-- ===== src/ThreadPool/Loop/Kept.antt =====
-- Each step keeps what holds of the pool.
use asyncplusplus.Prelude.{
  ℕ, ◌≤◌, ◌<◌, ◌^◌, ◌≡◌, ◌≢◌, refl, sym, List, [], ◌∷◌, ◌++◌, false, update, update_ne, update_self,
  arith, inl, inr, ◌⊎◌, length, length-replicate, ℕ_discrete,
}
use mathlib.Core.Path.{subst}
use asyncplusplus.Prelude.Count.{count, count-append}
use asyncplusplus.TaskWaitEvent.{task_finished, signal}
use asyncplusplus.Prelude.Sum.{sum_to-none}
use asyncplusplus.ThreadPool.Waiters.{wake_one, wake_all}
use asyncplusplus.ThreadPool.WaitersLaws.{sleeping, IsValid, wake_all_lem}
use asyncplusplus.ThreadPool.WaitersSlots.{wake_one-Woke, length-wake_all, wake_all-IsValid}
use asyncplusplus.ThreadPool.Loop
use asyncplusplus.ThreadPool.Loop.{World, Step, Reach, start, Move}
use asyncplusplus.ThreadPool.PoolState.{Pool, Frame, set_event, notify, schedule_outside, shut_down}
use asyncplusplus.ThreadPool.Loop.Inv.{
  mask_of, Masks, in_sleep, Awake, ThreadOk, ListOk, Busy, Counted, Inv,
}
use asyncplusplus.ThreadPool.Loop.Masks.{signal-kept}
use asyncplusplus.ThreadPool.Loop.Gentle.{Gentle, ThreadOk-Gentle}
use asyncplusplus.ThreadPool.Loop.Others.{Gentle-notify, Gentle-signal, Gentle-trans, Move-Gentle}
use asyncplusplus.ThreadPool.Loop.Own.{own}
use asyncplusplus.ThreadPool.Loop.Slots.{ListOk-Fewer, Fewer-notify, room, list_kept}
use asyncplusplus.ThreadPool.Loop.Counts.{
  Move-Masks, Move-Counted, signal-Masks, notify-Masks, notify-Counted,
}
use asyncplusplus.ThreadPool.Loop.Awake.{signal_all_lem, Busy-mono, wakes_someone}

module _ (thread_of : ℕ → ℕ) (n : ℕ) where
  -- A thread of the pool takes a step.
  acts-Inv :
      (w : World) (i : ℕ) {f : Frame} {below fs : List Frame} {p : Pool}
      → Inv thread_of n w
      → i < n
      → w.stacks i ≡ f ∷ below
      → Move thread_of n i w.pool f below fs p
      → Inv thread_of n (record { stacks = update w.stacks i fs; pool = p })
  acts-Inv w i {f} {below} {fs} {p} inv lt s m = record {
    threads = λ j q. elim (ℕ_discrete i j) [
      | yes e ↦
          subst (λ k. ThreadOk thread_of k p (update w.stacks i fs k)) e
            (subst (ThreadOk thread_of i p) (sym (update_self w.stacks i fs)) result.0)
      | no ne ↦ subst (ThreadOk thread_of j p) (sym (update_ne w.stacks i j fs ne)) (
          ThreadOk-Gentle thread_of i
            (Move-Gentle thread_of i before.owned.0 inv.masks inv.list.valid has_room m) j
            (w.stacks j) (λ e. ne (sym e)) (inv.threads j q))
    ];
    list = list_kept thread_of n w.stacks w.pool inv.list i lt s before.owned.0 m;
    busy = λ full. elim result.1 [
      | inl awake ↦ (i, lt, subst (Awake p) (sym (update_self w.stacks i fs)) awake)
      | inr empty ↦ absurd (full empty)
    ];
    counted = Move-Counted lt inv.counted m;
    masks = Move-Masks inv.masks m;
  }
    where
      before : ThreadOk thread_of i w.pool (f ∷ below)
      before = subst (ThreadOk thread_of i w.pool) s (inv.threads i lt)

      has_room : in_sleep f.pc ≡ false → w.pool.waiters.num_waiters < length w.pool.waiters.waiters
      has_room = room thread_of n w.stacks w.pool.waiters inv.list i f below s lt

      result : ThreadOk thread_of i p fs × (Awake p fs ⊎ (p.public_queue ≡ []))
      result = own thread_of i before inv.list.valid has_room m

  -- A step that leaves the stacks as they are.
  outside-Inv :
      (w : World) (p : Pool)
      → Inv thread_of n w
      → Gentle thread_of n w.pool p
      → ListOk thread_of n w.stacks p.waiters
      → Busy n w.stacks p
      → Counted n p
      → Masks p
      → Inv thread_of n (record w { pool = p })
  outside-Inv w p inv g list busy counted masks = record {
    threads = λ j q.
        ThreadOk-Gentle thread_of n g j (w.stacks j) (λ e. omega (arith, e, q)) (inv.threads j q);
    list = list;
    busy = busy;
    counted = counted;
    masks = masks;
  }

  schedules-Inv :
      (w : World) (t : ℕ)
      → 0 < n
      → Inv thread_of n w
      → w.pool.shutdown ≡ false
      → Inv thread_of n (record w { pool = schedule_outside w.pool t })
  unfolding count
  schedules-Inv w t some_thread inv off =
      outside-Inv w (schedule_outside w.pool t) inv
        (Gentle-trans thread_of n queued
          (Gentle-notify thread_of n pushed inv.masks inv.list.valid))
        (ListOk-Fewer thread_of n w.stacks w.pool.waiters inv.list (notify pushed).waiters
          (Fewer-notify pushed inv.list.valid))
        (λ full.
          wakes_someone thread_of n some_thread w.stacks w.pool pushed (wake_one w.pool.waiters).0
            (wake_one w.pool.waiters).1 inv.masks off inv.threads inv.list refl
            (wake_one-Woke w.pool.waiters inv.list.valid))
        (notify-Counted n pushed
          (λ x. omega (arith, inv.counted x, count-append x w.pool.public_queue (t ∷ []))))
        (notify-Masks pushed inv.masks)
    where
      pushed : Pool
      pushed = record w.pool {
        public_queue = w.pool.public_queue ++ (t ∷ []);
        given = t ∷ w.pool.given;
      }

      queued : Gentle thread_of n w.pool pushed
      queued = record {
        deques = λ j ne e. e;
        masks = λ e ne z. z;
        list = λ e ne z h. h;
        shutdown = λ z. z;
        public_queue = λ z e. absurd cc;
      }

  shuts_down-Inv :
      (w : World) → Inv thread_of n w → Inv thread_of n (record w { pool = shut_down w.pool })
  shuts_down-Inv w inv =
      outside-Inv w (shut_down w.pool) inv
        (record {
          deques = λ j ne e. e;
          masks = λ e ne z. still e z;
          list = λ e ne z h.
              absurd (signalled.1 e (inr (omega (arith, h, (wake_all_lem w.pool.waiters e).0))) z);
          shutdown = λ z. refl;
          public_queue = λ z e. e;
        })
        (ListOk-Fewer thread_of n w.stacks w.pool.waiters inv.list (wake_all w.pool.waiters).1
          emptied)
        (Busy-mono n w.stacks w.pool (shut_down w.pool) refl still inv.busy) inv.counted signalled.0
    where
      signalled :
          ((a : ℕ) → mask_of (shut_down w.pool) a < 4)
          × ((a : ℕ)
              → (mask_of w.pool a ≢ 0) ⊎ (1 ≤ count a (wake_all w.pool.waiters).0)
              → mask_of (shut_down w.pool) a ≢ 0)
      signalled = signal_all_lem (wake_all w.pool.waiters).0 w.pool inv.masks

      still : (e : ℕ) → mask_of (shut_down w.pool) e ≡ 0 → mask_of w.pool e ≡ 0
      still e z = elim (ℕ_discrete (mask_of w.pool e) 0) [
        | yes q ↦ q
        | no ne ↦ absurd (signalled.1 e (inl ne) z)
      ]

      emptied :
          IsValid (wake_all w.pool.waiters).1
          × (length (wake_all w.pool.waiters).1.waiters ≡ length w.pool.waiters.waiters)
          × ((e : ℕ) → sleeping (wake_all w.pool.waiters).1 e ≤ sleeping w.pool.waiters e)
      emptied = (
        wake_all-IsValid w.pool.waiters inv.list.valid,
        length-wake_all w.pool.waiters,
        λ e. omega (arith, (wake_all_lem w.pool.waiters e).1),
      )

  fires-Inv :
      (w : World) (left : List ℕ) (e : ℕ) (right : List ℕ)
      → Inv thread_of n w
      → Inv thread_of n (record w {
        pool = record w.pool {
          callbacks = left ++ right;
          events = update w.pool.events e (signal (w.pool.events e) task_finished);
        };
      })
  fires-Inv w left e right inv =
      outside-Inv w fired inv
        (record {
          deques = g.deques;
          masks = g.masks;
          list = g.list;
          shutdown = g.shutdown;
          public_queue = g.public_queue;
        })
        inv.list (Busy-mono n w.stacks w.pool fired refl (λ a z. nonzero_kept a z) inv.busy)
        inv.counted (signal-Masks w.pool e task_finished inv.masks)
    where
      fired : Pool
      fired = record w.pool {
        callbacks = left ++ right;
        events = update w.pool.events e (signal (w.pool.events e) task_finished);
      }

      g : Gentle thread_of n w.pool (set_event w.pool e (signal (w.pool.events e) task_finished))
      g = Gentle-signal thread_of n w.pool e task_finished inv.masks

      nonzero_kept : (a : ℕ) → mask_of fired a ≡ 0 → mask_of w.pool a ≡ 0
      nonzero_kept a z = signal-kept w.pool e task_finished inv.masks a z

  pub Step-Inv :
      {w w' : World} → 0 < n → Inv thread_of n w → Step thread_of n w w' → Inv thread_of n w'
  Step-Inv {w} some_thread inv (Loop.acts i lt s m) = acts-Inv w i inv lt s m
  Step-Inv {w} some_thread inv (Loop.schedules t off) = schedules-Inv w t some_thread inv off
  Step-Inv {w} some_thread inv (Loop.shuts_down off) = shuts_down-Inv w inv
  Step-Inv {w} some_thread inv (Loop.fires left e right q) = fires-Inv w left e right inv

  module _ (first : ℕ → ℕ) where
    start-Inv :
        n < 2 ^ 64 → ((i : ℕ) → i < n → thread_of (first i) ≡ i) → Inv thread_of n (start first n)
    unfolding sleeping count
    start-Inv small own_event = record {
      threads = λ i lt. record {
        shape = tt;
        owned = (own_event i lt, tt);
        drained = λ z. refl;
        listed = λ z. absurd cc;
        ended = tt;
      };
      list = record {
        valid = (omega arith, omega (arith, length-replicate {A = ℕ} n 0, small));
        slots = length-replicate {A = ℕ} n 0;
        once = λ e. omega arith;
        holds = λ e h. absurd (omega (arith, h));
      };
      busy = λ full. absurd (full refl);
      counted = λ t. omega (arith, sum_to-none n);
      masks = λ e. omega arith;
    }

    pub reach-Inv :
        {w : World}
        → 0 < n
        → n < 2 ^ 64
        → ((i : ℕ) → i < n → thread_of (first i) ≡ i)
        → Reach thread_of first n w
        → Inv thread_of n w
    reach-Inv some_thread small own_event Loop.begin = start-Inv small own_event
    reach-Inv some_thread small own_event (Loop.later r s) =
        Step-Inv some_thread (reach-Inv some_thread small own_event r) s
