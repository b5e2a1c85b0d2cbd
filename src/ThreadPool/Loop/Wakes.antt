-- ===== src/ThreadPool/Loop/Wakes.antt =====
-- Which threads a step wakes, and who may work after it.
use asyncplusplus.Prelude.{ℕ, ◌+◌, ◌<◌, ◌≡◌, List, [], ◌⊎◌}
use asyncplusplus.Prelude.Among.{same}
use asyncplusplus.ThreadPool.Waiters.{Waiters}
use asyncplusplus.ThreadPool.WaitersLaws.{sleeping}
use asyncplusplus.ThreadPool.Loop
use asyncplusplus.ThreadPool.Loop.{World, Step, Move}
use asyncplusplus.ThreadPool.PoolState.{Pool, Frame}
use asyncplusplus.ThreadPool.Loop.Inv.{Masks, Asleep, Inv}
use asyncplusplus.ThreadPool.Loop.Progress.{Advances}

-- No task waits in the public queue or on the deque of one of `n` threads.
abbrev pub NoTask : ℕ → Pool → Type 0
NoTask n p = (p.public_queue ≡ []) × ((i : ℕ) → i < n → p.deques i ≡ [])

-- The list of sleeping threads was empty, or one of them, with its event at `e`, was taken off it,
-- once, and can take a step.
abbrev pub WakesOne : (ℕ → ℕ) → ℕ → World → World → Type 0
WakesOne thread_of n w w' =
    (w.pool.waiters.num_waiters ≡ 0)
    ⊎ ((e : ℕ) × (thread_of e < n)
        × Asleep (w.stacks (thread_of e)) e
        × ((a : ℕ) → sleeping w'.pool.waiters a + same a e ≡ sleeping w.pool.waiters a)
        × Advances thread_of n (thread_of e) w'.pool (w'.stacks (thread_of e)))

-- What a step of a thread of the pool owes to the sleeping threads: the part of `schedule` under the
-- mutex wakes one.
abbrev pub MoveOwes :
    {thread_of : ℕ → ℕ} {n i : ℕ} {p : Pool} {f : Frame} {below fs : List Frame} {p' : Pool}
    → Move thread_of n i p f below fs p'
    → Type 0
    → Type 0
MoveOwes (Loop.notifies h) Woken = Woken
MoveOwes (Loop.inner k) Woken = Unit
MoveOwes (Loop.returns_signalled a b c d) Woken = Unit
MoveOwes (Loop.goes_on_unsignalled a b c d) Woken = Unit
MoveOwes (Loop.pops l a b) Woken = Unit
MoveOwes (Loop.steals l a b c d) Woken = Unit
MoveOwes (Loop.fetches a b) Woken = Unit
MoveOwes (Loop.sleeps a b c) Woken = Unit
MoveOwes (Loop.wakes a b) Woken = Unit
MoveOwes (Loop.leaves_done a b c) Woken = Unit
MoveOwes (Loop.leaves a b) Woken = Unit
MoveOwes (Loop.pushes c a) Woken = Unit
MoveOwes (Loop.waits u e a b) Woken = Unit

abbrev pub Wakes : {thread_of : ℕ → ℕ} {n : ℕ} {w w' : World} → Step thread_of n w w' → Type 0
Wakes {thread_of} {n} {w} {w'} (Loop.acts i lt s m) = MoveOwes m (WakesOne thread_of n w w')
Wakes {thread_of} {n} {w} {w'} (Loop.schedules t off) = WakesOne thread_of n w w'
Wakes (Loop.shuts_down off) = Unit
Wakes (Loop.fires left e right q) = Unit
