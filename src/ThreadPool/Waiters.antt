-- ===== src/ThreadPool/Waiters.antt =====
-- The list of sleeping threads in `threadpool_data`: `waiters` and `num_waiters`, which
-- `thread_task_loop`, `schedule` and the destructor of the pool change under its mutex. A thread is
-- known by the address of its `task_wait_event`.
use asyncplusplus.Prelude.{
  ℕ, zero, suc, ◌+◌, ◌==◌, not, List, [], ◌∷◌, Option, none, some, if◌then◌else◌, get_or, set,
}
use asyncplusplus.Word.{add_size, sub_size}

pub record Waiters : Type 0 where
  pub waiters : List ℕ
  pub num_waiters : ℕ

abbrev pub waiter : Waiters → ℕ → ℕ
waiter w i = get_or w.waiters i 0

-- A thread joins the list before it sleeps.
unfoldable pub join : Waiters → ℕ → Waiters
join w event = record {
  waiters = set w.waiters w.num_waiters event;
  num_waiters = add_size w.num_waiters 1;
}

-- The loop body that has found the thread at slot `i`: the last one takes its place.
unfoldable pub remove_at : Waiters → ℕ → Waiters
remove_at w i =
    let last = sub_size w.num_waiters 1 in
    let swapped = set (set w.waiters i (waiter w last)) last (waiter w i) in
    record { waiters = (if not (i == last) then swapped else w.waiters); num_waiters = last }

-- The loop with which a thread leaves the list when it has woken up, from slot `i`.
unfoldable pub leave_from : Waiters → ℕ → ℕ → ℕ → Waiters
unfolding remove_at
leave_from w event zero i = w
leave_from w event (suc rounds) i =
    let rest = leave_from w event rounds (i + 1) in
    if waiter w i == event then remove_at w i else rest

unfoldable pub leave : Waiters → ℕ → Waiters
unfolding leave_from
leave w event = leave_from w event w.num_waiters 0

-- `schedule` takes the last thread off the list and signals it; `none` if no thread sleeps.
unfoldable pub wake_one : Waiters → Option ℕ × Waiters
wake_one w =
    let last = sub_size w.num_waiters 1 in
    if w.num_waiters == 0
    then (none, w)
    else (some (waiter w last), record w { num_waiters = last })

-- The loop of the destructor: the threads that it signals, in order.
unfoldable pub signal_from : Waiters → ℕ → ℕ → List ℕ
signal_from w zero i = []
signal_from w (suc rounds) i = waiter w i ∷ signal_from w rounds (i + 1)

unfoldable pub wake_all : Waiters → List ℕ × Waiters
unfolding signal_from
wake_all w = (signal_from w w.num_waiters 0, record w { num_waiters = 0 })
