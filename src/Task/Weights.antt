-- ===== src/Task/Weights.antt =====
-- Who holds a task: how many commands, continuation vectors and schedulers may still finish it, and
-- how many commands have yet to pass its continuations on.
use asyncplusplus.Prelude.{ℕ, ◌+◌, List}
use asyncplusplus.Prelude.Among.{same}
use asyncplusplus.Prelude.Sum.{sum, sum_to}
use asyncplusplus.ContinuationVector.Contract.{Phase, accepting, closing, closed}
use asyncplusplus.Task.{
  TaskState, pending, locked, unwrapped, completed, canceled, Exec, root, on_value, on_task,
  forward, event, Task,
}
use asyncplusplus.Task.Handlers.{
  Command, run, calling, run_finish, finish, cancel, cancel_base, lock, flush, deliver, schedule,
  add, try, unwrap,
}
use asyncplusplus.Task.System.{World}

-- What a command counts for, and a handle in a vector or a scheduler.
pub record Weight : Type 0 where
  pub of_command : Command → ℕ
  pub of_handle : ℕ → ℕ

-- The handles of a task that has not been started, or whose function has yet to return.
abbrev pub start_command : ℕ → Command → ℕ
start_command t (run u) = same t u
start_command t (calling u) = same t u
start_command t (run_finish u v) = same t u
start_command t (finish u v) = 0
start_command t (cancel u e) = same t u
start_command t (cancel_base u e) = 0
start_command t (lock u) = 0
start_command t (flush u) = 0
start_command t (deliver us) = sum (same t) us
start_command t (schedule u) = same t u
start_command t (add p u) = same t u
start_command t (try p u) = same t u
start_command t (unwrap u c) = same t u

abbrev pub starts : ℕ → Weight
starts t = record { of_command = start_command t; of_handle = same t }

-- `unwrapped_func` owns the task that it forwards to.
abbrev pub forwards : ℕ → Exec → ℕ
forwards t (forward p c) = same t p
forwards t (root s u) = 0
forwards t (on_value s u p) = 0
forwards t (on_task s u p) = 0
forwards t event = 0

-- The commands and handles that are to finish a task whose function is gone or that has none.
abbrev pub end_command : (ℕ → Exec) → ℕ → Command → ℕ
end_command exec t (run u) = forwards t (exec u)
end_command exec t (calling u) = 0
end_command exec t (run_finish u v) = 0
end_command exec t (finish u v) = same t u
end_command exec t (cancel u e) = 0
end_command exec t (cancel_base u e) = same t u
end_command exec t (lock u) = 0
end_command exec t (flush u) = 0
end_command exec t (deliver us) = sum (λ u. forwards t (exec u)) us
end_command exec t (schedule u) = forwards t (exec u)
end_command exec t (add p u) = forwards t (exec u)
end_command exec t (try p u) = forwards t (exec u)
end_command exec t (unwrap u c) = 0

abbrev pub ends : (ℕ → Exec) → ℕ → Weight
ends exec t = record { of_command = end_command exec t; of_handle = λ u. forwards t (exec u) }

abbrev pub lock_command : ℕ → Command → ℕ
lock_command t (lock u) = same t u
lock_command t (run u) = 0
lock_command t (calling u) = 0
lock_command t (run_finish u v) = 0
lock_command t (finish u v) = 0
lock_command t (cancel u e) = 0
lock_command t (cancel_base u e) = 0
lock_command t (flush u) = 0
lock_command t (deliver us) = 0
lock_command t (schedule u) = 0
lock_command t (add p u) = 0
lock_command t (try p u) = 0
lock_command t (unwrap u c) = 0

abbrev pub locks : ℕ → Weight
locks t = record { of_command = lock_command t; of_handle = λ u. 0 }

abbrev pub flush_command : ℕ → Command → ℕ
flush_command t (flush u) = same t u
flush_command t (lock u) = 0
flush_command t (run u) = 0
flush_command t (calling u) = 0
flush_command t (run_finish u v) = 0
flush_command t (finish u v) = 0
flush_command t (cancel u e) = 0
flush_command t (cancel_base u e) = 0
flush_command t (deliver us) = 0
flush_command t (schedule u) = 0
flush_command t (add p u) = 0
flush_command t (try p u) = 0
flush_command t (unwrap u c) = 0

abbrev pub flushes : ℕ → Weight
flushes t = record { of_command = flush_command t; of_handle = λ u. 0 }

module _ (w : Weight) where
  abbrev pub of_stack : List Command → ℕ
  of_stack = sum w.of_command

  abbrev pub of_handles : List ℕ → ℕ
  of_handles = sum w.of_handle

  -- All the continuation vectors of the tasks made so far.
  abbrev pub of_vectors : (ℕ → Task) → ℕ → ℕ
  of_vectors tasks n = sum_to (λ u. of_handles (tasks u).waiting) n

  unfoldable pub load : World → ℕ
  load world =
      sum of_stack world.threads + of_handles world.pool + of_vectors world.tasks world.next

-- How many there should be, by the state of the task.
abbrev pub has_function : Exec → ℕ
has_function (root sc u) = 1
has_function (on_value sc u p) = 1
has_function (on_task sc u p) = 1
has_function (forward p c) = 1
has_function event = 0

abbrev pub wanted_start : Exec → TaskState → ℕ
wanted_start ex pending = has_function ex
wanted_start ex locked = 0
wanted_start ex unwrapped = 0
wanted_start ex completed = 0
wanted_start ex canceled = 0

abbrev pub wanted_end : TaskState → ℕ
wanted_end pending = 0
wanted_end locked = 1
wanted_end unwrapped = 1
wanted_end completed = 0
wanted_end canceled = 0

-- 1 before the lock flag is set.
abbrev pub unlocked : Phase → ℕ
unlocked accepting = 1
unlocked closing = 0
unlocked closed = 0

abbrev pub wanted_lock : TaskState → Phase → ℕ
wanted_lock completed ph = unlocked ph
wanted_lock canceled ph = unlocked ph
wanted_lock pending ph = 0
wanted_lock locked ph = 0
wanted_lock unwrapped ph = 0

abbrev pub wanted_flush : Phase → ℕ
wanted_flush closing = 1
wanted_flush accepting = 0
wanted_flush closed = 0
