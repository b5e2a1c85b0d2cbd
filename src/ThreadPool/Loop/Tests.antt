-- ===== src/ThreadPool/Loop/Tests.antt =====
-- A pool of one thread that sleeps, is woken for a task, runs it and ends; a pool of two threads.
use asyncplusplus.Prelude.{
  ℕ, zero, suc, ◌+◌, ◌<◌, ◌≡◌, ◌%◌, refl, List, [], ◌∷◌, true, false, none, arith, inl, inr, length,
  some,
}
use asyncplusplus.Prelude.Count.{count}
use asyncplusplus.Prelude.Ranges.{inside}
use asyncplusplus.Prelude.Sum.{sum_to}
use asyncplusplus.TaskWaitEvent
use asyncplusplus.TaskWaitEvent.{wait, signal}
use asyncplusplus.ThreadPool.Waiters.{wake_one, leave, leave_from, join}
use asyncplusplus.ThreadPool.Loop
use asyncplusplus.ThreadPool.Loop.{
  World, Reach, Step, Inner, Move, start, begin, later, acts, inner,
}
use asyncplusplus.ThreadPool.PoolState
use asyncplusplus.ThreadPool.PoolState.{Frame}
use asyncplusplus.ThreadPool.Loop.Laws.{no_task_lost, shutdown_complete, waiters_fit}

abbrev thread_of : ℕ → ℕ → ℕ
thread_of n e = e % suc n

abbrev first : ℕ → ℕ
first i = i

victims_of_one : (j : ℕ) → count j (0 ∷ []) ≡ inside 0 1 j
unfolding count inside
victims_of_one j = ground arith

abbrev Run : Type 0
Run = (w : World) × Reach (thread_of 0) first 1 w

abbrev go :
    (r : Run) {f : Frame} {below fs : List Frame}
    → r.0.stacks 0 ≡ f ∷ below
    → Inner 1 0 r.0.pool f below fs
    → Run
go r s k = (_, later r.1 (acts 0 (omega arith) s (inner k)))

abbrev go_on :
    (r : Run) {f : Frame} {below fs : List Frame} {p : PoolState.Pool}
    → r.0.stacks 0 ≡ f ∷ below
    → Move (thread_of 0) 1 0 r.0.pool f below fs p
    → Run
go_on r s k = (_, later r.1 (acts 0 (omega arith) s k))

abbrev at_queue : Run
at_queue =
    let r : Run = (start first 1, begin) in
    let r : Run = go r refl (Loop.goes_on refl (inl refl)) in
    let r : Run = go r refl (Loop.finds_none refl refl) in
    let r : Run = go r refl (Loop.shuffles (0 ∷ []) refl victims_of_one) in
    let r : Run = go r refl (Loop.skips refl refl) in go r refl (Loop.gives_up refl)

abbrev asleep : Run
asleep = go_on at_queue refl (Loop.sleeps refl refl (inr refl))

abbrev given : Run
given = (_, later asleep.1 (Loop.schedules 5 refl))

signalled : (wait (given.0.pool.events 0)).0 ≡ some 2
unfolding wait signal wake_one join TaskWaitEvent.init
signalled = refl

abbrev at_queue_again : Run
at_queue_again =
    let r : Run = go_on given refl (Loop.wakes refl signalled) in
    let r : Run = go_on r refl (Loop.leaves refl (inl refl)) in
    let r : Run = go r refl (Loop.shuffles (0 ∷ []) refl victims_of_one) in
    let r : Run = go r refl (Loop.skips refl refl) in go r refl (Loop.gives_up refl)

waiting : at_queue_again.0.pool.public_queue ≡ 5 ∷ []
unfolding wait signal wake_one join leave leave_from TaskWaitEvent.init
waiting = refl

abbrev called : Run
called = go_on at_queue_again refl (Loop.fetches refl waiting)

own_deque : called.0.pool.deques 0 ≡ []
unfolding wait signal wake_one join leave leave_from TaskWaitEvent.init
own_deque = refl

still_open : called.0.pool.shutdown ≡ false
unfolding wait signal wake_one join leave leave_from TaskWaitEvent.init
still_open = refl

abbrev ended : Run
ended =
    let r : Run = go called refl (Loop.finishes refl) in
    let r : Run = go r refl (Loop.goes_on refl (inl refl)) in
    let r : Run = go r refl (Loop.finds_none refl own_deque) in
    let r : Run = go r refl (Loop.shuffles (0 ∷ []) refl victims_of_one) in
    let r : Run = go r refl (Loop.skips refl refl) in
    let r : Run = go r refl (Loop.gives_up refl) in
    let r : Run = (_, later r.1 (Loop.shuts_down still_open)) in
    go r refl (Loop.exits refl refl refl refl)

own_event : (i : ℕ) → i < 1 → thread_of 0 (first i) ≡ i
own_event i lt = omega (arith, lt)

all_ended : (i : ℕ) → i < 1 → ended.0.stacks i ≡ []
all_ended zero lt = refl
all_ended (suc i) lt = absurd (omega (arith, lt))

no_task_lost_example :
    count 5 given.0.pool.given
    ≡ count 5 given.0.pool.taken
      + count 5 given.0.pool.public_queue
      + sum_to (λ i. count 5 (given.0.pool.deques i)) 1
no_task_lost_example =
    no_task_lost (thread_of 0) first 1 (omega arith) (omega arith) own_event given.0 given.1 5

shutdown_complete_example :
    (ended.0.pool.shutdown ≡ true)
    × (ended.0.pool.public_queue ≡ [])
    × ((i : ℕ) → i < 1 → ended.0.pool.deques i ≡ [])
    × ((t : ℕ) → count t ended.0.pool.given ≡ count t ended.0.pool.taken)
shutdown_complete_example =
    shutdown_complete (thread_of 0) first 1 (omega arith) (omega arith) own_event ended.0 ended.1
      all_ended

waiters_fit_example :
    (at_queue.0.pool.waiters.num_waiters < length at_queue.0.pool.waiters.waiters)
    × (length at_queue.0.pool.waiters.waiters ≡ 1)
waiters_fit_example =
    waiters_fit (thread_of 0) first 1 (omega arith) (omega arith) own_event at_queue.0 at_queue.1 0
      (PoolState.at (PoolState.thread_task_loop 0 none) PoolState.fetching) [] (omega arith) refl
      refl
