-- ===== src/ThreadPool/Loop/Counts.antt =====
-- The pool after a step: its events hold masks of events, and no task is lost or taken twice.
use asyncplusplus.Prelude.{
  ℕ, ◌+◌, ◌<◌, ◌≡◌, ◌==◌, sym, ap, List, [], ◌∷◌, ◌++◌, Option, none, some, update, update_ne,
  update_self, arith, inl, inr, Bool-cases,
}
use asyncplusplus.Prelude.Count.{count, count-append}
use asyncplusplus.Prelude.Sum.{sum_to, sum_to-change}
use asyncplusplus.TaskWaitEvent
use asyncplusplus.TaskWaitEvent.{
  TaskWaitEvent, WaitType, task_finished, task_available, wait, try_wait, signal,
}
use asyncplusplus.TaskWaitEvent.Laws.{IsMask, signal_lem, try_wait_lem}
use asyncplusplus.ThreadPool.Waiters.{Waiters, wake_one}
use asyncplusplus.ThreadPool.Loop
use asyncplusplus.ThreadPool.Loop.{Move}
use asyncplusplus.ThreadPool.PoolState.{Pool, Frame, set_event, wake, notify}
use asyncplusplus.ThreadPool.Loop.Inv.{Masks, Counted}
use asyncplusplus.ThreadPool.Loop.Masks.{set_event-Masks}

init-IsMask : (v : TaskWaitEvent) → IsMask v.event_mask → IsMask (TaskWaitEvent.init v).event_mask
unfolding TaskWaitEvent.init
init-IsMask v h = elim (Bool-cases v.initialized) [ inl e ↦ rw e h | inr e ↦ rw e h ]

wait-IsMask : (v : TaskWaitEvent) → IsMask v.event_mask → IsMask (wait v).1.event_mask
unfolding wait
wait-IsMask v h = elim (Bool-cases (v.event_mask == 0)) [
  | inl e ↦ rw e h
  | inr e ↦ rw e (omega arith)
]

pub signal-Masks :
    (p : Pool) (e : ℕ) (t : WaitType) → Masks p → Masks (set_event p e (signal (p.events e) t))
signal-Masks p e t m =
    set_event-Masks p e (signal (p.events e) t) (signal_lem (p.events e) t t (m e)).1 m

wake-Masks : (p : Pool) (r : Option ℕ) (ws : Waiters) → Masks p → Masks (wake p r ws)
wake-Masks p none ws m = m
wake-Masks p (some first) ws m = signal-Masks p first task_available m

pub notify-Masks : (p : Pool) → Masks p → Masks (notify p)
notify-Masks p m = wake-Masks p (wake_one p.waiters).0 (wake_one p.waiters).1 m

try_wait-Masks :
    (p : Pool) (e : ℕ) → Masks p → Masks (set_event p e (try_wait (p.events e) task_finished).1)
try_wait-Masks p e m =
    set_event-Masks p e (try_wait (p.events e) task_finished).1
      (try_wait_lem (p.events e) task_finished task_finished (m e)).2 m

module _ {thread_of : ℕ → ℕ} {n i : ℕ} where
  pub Move-Masks :
      {p : Pool} {f : Frame} {below fs : List Frame} {p' : Pool}
      → Masks p
      → Move thread_of n i p f below fs p'
      → Masks p'
  Move-Masks m (Loop.inner k) = m
  Move-Masks {p} {f} m (Loop.returns_signalled a b c d) = try_wait-Masks p f.event m
  Move-Masks {p} {f} m (Loop.goes_on_unsignalled a b c d) = try_wait-Masks p f.event m
  Move-Masks m (Loop.pops l a b) = m
  Move-Masks m (Loop.steals l a b c d) = m
  Move-Masks m (Loop.fetches a b) = m
  Move-Masks {p} {f} m (Loop.sleeps a b c) =
      set_event-Masks p f.event (TaskWaitEvent.init (p.events f.event))
        (init-IsMask (p.events f.event) (m f.event)) m
  Move-Masks {p} {f} m (Loop.wakes a b) =
      set_event-Masks p f.event (wait (p.events f.event)).1
        (wait-IsMask (p.events f.event) (m f.event)) m
  Move-Masks m (Loop.leaves_done a b c) = m
  Move-Masks m (Loop.leaves a b) = m
  Move-Masks m (Loop.pushes c a) = m
  Move-Masks {p} m (Loop.notifies a) = notify-Masks p m
  Move-Masks {p} m (Loop.waits u e a b) =
      set_event-Masks p e TaskWaitEvent.new_event (omega arith) m

-- Deque `k` is replaced.
deque_counts :
    (deques : ℕ → List ℕ) (k n : ℕ) (d : List ℕ) (t : ℕ)
    → k < n
    → sum_to (λ j. count t (update deques k d j)) n + count t (deques k)
      ≡ sum_to (λ j. count t (deques j)) n + count t d
deque_counts deques k n d t lt = omega (
  arith,
  sum_to-change (λ j. count t (deques j)) (λ j. count t (update deques k d j)) k n lt
      (λ j ne. ap (count t) (update_ne deques k j d (λ e. ne (sym e)))),
  ap (count t) (update_self deques k d),
)

waken-Counted :
    (n : ℕ) (p : Pool) (r : Option ℕ) (ws : Waiters) → Counted n p → Counted n (wake p r ws)
waken-Counted n p none ws c = c
waken-Counted n p (some first) ws c = c

pub notify-Counted : (n : ℕ) (p : Pool) → Counted n p → Counted n (notify p)
notify-Counted n p c = waken-Counted n p (wake_one p.waiters).0 (wake_one p.waiters).1 c

module _ {thread_of : ℕ → ℕ} {n i : ℕ} (lt : i < n) where
  pub Move-Counted :
      {p : Pool} {f : Frame} {below fs : List Frame} {p' : Pool}
      → Counted n p
      → Move thread_of n i p f below fs p'
      → Counted n p'
  unfolding count
  Move-Counted m (Loop.inner k) = m
  Move-Counted m (Loop.returns_signalled a b c d) = m
  Move-Counted m (Loop.goes_on_unsignalled a b c d) = m
  Move-Counted {p} m (Loop.pops {t} l a b) = λ x.
      omega
        (arith, m x, deque_counts p.deques i n l x lt, ap (count x) b, count-append x l (t ∷ []))
  Move-Counted {p} m (Loop.steals {v} {t} l a b c d) =
      λ x. omega (arith, m x, deque_counts p.deques v n l x c, ap (count x) d)
  Move-Counted {p} m (Loop.fetches a b) = λ x. omega (arith, m x, ap (count x) b)
  Move-Counted m (Loop.sleeps a b c) = m
  Move-Counted m (Loop.wakes a b) = m
  Move-Counted m (Loop.leaves_done a b c) = m
  Move-Counted m (Loop.leaves a b) = m
  Move-Counted {p} m (Loop.pushes c a) = λ x. omega (
    arith,
    m x,
    deque_counts p.deques i n (p.deques i ++ (c ∷ [])) x lt,
    count-append x (p.deques i) (c ∷ []),
  )
  Move-Counted {p} m (Loop.notifies a) = notify-Counted n p m
  Move-Counted m (Loop.waits u e a b) = m
