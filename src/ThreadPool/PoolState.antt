-- ===== src/ThreadPool/PoolState.antt =====
-- `threadpool_data`, the program points of a thread in `thread_task_loop`, `steal_task` and
-- `schedule`, and what each part of them does to the pool. The deques and the public queue are the
-- lists that they refine.
use asyncplusplus.Prelude.{
  ℕ, ◌||◌, List, [], ◌∷◌, ◌++◌, Bool, true, false, Option, none, some, update, replicate,
}
use asyncplusplus.TaskWaitEvent
use asyncplusplus.TaskWaitEvent.{
  TaskWaitEvent, task_finished, task_available, new_event, wait, try_wait, signal,
}
use asyncplusplus.ThreadPool.Waiters.{Waiters, join, wake_one, wake_all}

-- `events` are the `task_wait_event`s by address; `callbacks` those that a continuation of a task is
-- yet to signal. `given` are the tasks that have been scheduled, `taken` those that a thread has
-- taken to run, the newest first.
pub record Pool : Type 0 where
  pub deques : ℕ → List ℕ
  pub public_queue : List ℕ
  pub shutdown : Bool
  pub waiters : Waiters
  pub events : ℕ → TaskWaitEvent
  pub callbacks : List ℕ
  pub given : List ℕ
  pub taken : List ℕ

abbrev pub new_pool : ℕ → Pool
new_pool num_threads = record {
  deques = λ i. [];
  public_queue = [];
  shutdown = false;
  waiters = record { waiters = replicate num_threads 0; num_waiters = 0 };
  events = λ e. new_event;
  callbacks = [];
  given = [];
  taken = [];
}

pub data Pc : Type 0 where
  top : Pc  -- the head of the outer loop
  popping : Pc  -- before `queue.pop`
  choosing : Pc  -- the head of the inner loop
  stealing : (victims : List ℕ) → Pc  -- in the loop of `steal_task`
  fetching : Pc  -- before the mutex is locked
  sleeping : Pc  -- in `event.wait`
  woken : (events : ℕ) → Pc  -- before the mutex is locked again
  running : (t : ℕ) → Pc  -- in `t.run()`
  notifying : (t : ℕ) → Pc  -- in `schedule`, after the push
  locking : (t : ℕ) → Pc  -- in `schedule`, before the mutex is locked

-- A call of `thread_task_loop`.
pub record Frame : Type 0 where
  pub event : ℕ
  pub wait_task : Option ℕ
  pub added_continuation : Bool
  pub pc : Pc

abbrev pub thread_task_loop : ℕ → Option ℕ → Frame
thread_task_loop event wait_task = record {
  event = event;
  wait_task = wait_task;
  added_continuation = false;
  pc = top;
}

abbrev pub at : Frame → Pc → Frame
at f pc = record f { pc = pc }

abbrev pub set_event : Pool → ℕ → TaskWaitEvent → Pool
set_event p e v = record p { events = update p.events e v }

-- `schedule` under the mutex, by what it finds on the list of sleeping threads.
abbrev pub wake : Pool → Option ℕ → Waiters → Pool
wake p none ws = record p { waiters = ws }
wake p (some e) ws = record p {
  waiters = ws;
  events = update p.events e (signal (p.events e) task_available);
}

abbrev pub notify : Pool → Pool
notify p = wake p (wake_one p.waiters).0 (wake_one p.waiters).1

-- `schedule` in a thread that is not in the pool.
abbrev pub schedule_outside : Pool → ℕ → Pool
schedule_outside p t =
    notify (record p { public_queue = p.public_queue ++ (t ∷ []); given = t ∷ p.given })

-- `queue.push` in `schedule`, in thread `i` of the pool.
abbrev pub push_own : Pool → ℕ → ℕ → Pool
push_own p i t = record p {
  deques = update p.deques i (p.deques i ++ (t ∷ []));
  given = t ∷ p.given;
}

-- A task is taken from deque `i`, which leaves `l`.
abbrev pub take_from : Pool → ℕ → ℕ → List ℕ → Pool
take_from p i t l = record p { deques = update p.deques i l; taken = t ∷ p.taken }

abbrev pub fetch : Pool → ℕ → List ℕ → Pool
fetch p t l = record p { public_queue = l; taken = t ∷ p.taken }

abbrev is_some : Option ℕ → Bool
is_some none = false
is_some (some u) = true

-- The event that a continuation has to be made for.
abbrev on_finish : List ℕ → ℕ → Option ℕ → Bool → List ℕ
on_finish callbacks e (some u) false = e ∷ callbacks
on_finish callbacks e (some u) true = callbacks
on_finish callbacks e none added = callbacks

-- From `event.init` to the unlock before `event.wait`.
abbrev pub prepare_sleep : Pool → Frame → Pool
prepare_sleep p f = record p {
  events = update p.events f.event (TaskWaitEvent.init (p.events f.event));
  callbacks = on_finish p.callbacks f.event f.wait_task f.added_continuation;
  waiters = join p.waiters f.event;
}

abbrev pub asleep_frame : Frame → Frame
asleep_frame f = record f {
  added_continuation = f.added_continuation || is_some f.wait_task;
  pc = sleeping;
}

-- The destructor of the pool, up to the joins.
abbrev pub signal_all : List ℕ → (ℕ → TaskWaitEvent) → ℕ → TaskWaitEvent
signal_all [] events = events
signal_all (e ∷ es) events = signal_all es (update events e (signal (events e) task_available))

abbrev pub shut_down : Pool → Pool
shut_down p = record p {
  shutdown = true;
  events = signal_all (wake_all p.waiters).0 p.events;
  waiters = (wake_all p.waiters).1;
}
