-- ===== src/Task/Tests.antt =====
-- Runs of one thread with an event and a continuation of it.
use asyncplusplus.Prelude.{
  ℕ, zero, suc, ◌≡◌, refl, List, [], ◌∷◌, Bool, true, false, some, update, arith,
}
use asyncplusplus.ContinuationVector.Contract.{accepting, closing, closed}
use asyncplusplus.Task.{
  pending, locked, completed, is_finished, inline_, Scheduler, Exec, on_value, event, Task,
  new_task,
}
use asyncplusplus.Task.Handlers.{Command, calling, deliver, complete, destroy, lock}
use asyncplusplus.Task.System.{
  outside, start, finish_base, set_lock, flush_all, deliver_next, run_inline, see_unfinished, added,
  then_, new_event, set_value, set_continuations, World, turn, Reach, begin, later,
}
use asyncplusplus.Task.Weights.{load, starts, ends, locks, flushes}
use asyncplusplus.Task.Results.{
  Steps, stay, onward, Reach-Steps, Freed, destroy-Freed, called_in_time,
}
use asyncplusplus.Task.Progress.{CanTurn, thread_advances}
use asyncplusplus.Task.Delivery.{one_holder, Reason, unfinished_waits}

-- Task 0 is an event, and task 1 a value-based continuation of it.
abbrev functions : ℕ → Exec
functions zero = event
functions (suc n) = on_value inline_ false 0

-- The only thread takes a turn, with no handle of a scheduler.
abbrev alone : (ℕ → Task) → ℕ → List Command → World
alone tasks next stack = record { tasks = tasks; next = next; threads = stack ∷ []; pool = [] }

abbrev tasks_made : ℕ → Task
tasks_made = update (update (λ _. new_task) 0 new_task) 1 new_task

abbrev tasks_waiting : ℕ → Task
tasks_waiting = update tasks_made 0 (set_continuations (tasks_made 0) accepting (1 ∷ []))

abbrev waiting_world : World
waiting_world = alone tasks_waiting 2 []

to_waiting : Reach functions 1 waiting_world
unfolding is_finished
to_waiting =
    later
      (later
        (later (later begin (turn [] [] [] [] refl refl (new_event outside refl))) (
          turn [] [] [] [] refl refl
            (then_ {p = 0} outside refl (λ q c e. absurd cc) (omega arith))))
        (turn [] [] [] [] refl refl (see_unfinished {p = 0} {c = 1} refl)))
      (turn [] [] [] [] refl refl
        (added {p = 0} {c = 1} {ph = accepting} {ts = 1 ∷ []} ((λ e. absurd cc), refl, refl)))

abbrev tasks_locked : ℕ → Task
tasks_locked = update tasks_waiting 0 (record (tasks_waiting 0) { state = locked })

abbrev tasks_set : ℕ → Task
tasks_set = update tasks_locked 0 (complete (tasks_locked 0) 7)

abbrev set_world : World
set_world = alone tasks_set 2 (lock 0 ∷ [])

to_set : Steps functions waiting_world set_world
to_set =
    onward
      (onward stay
        (turn [] [] [] [] refl refl (set_value {t = 0} 7 outside (omega arith) refl refl)))
      (turn [] [] [] [] refl refl (finish_base {t = 0} {v = 7}))

abbrev tasks_closing : ℕ → Task
tasks_closing = update tasks_set 0 (set_continuations (tasks_set 0) closing (1 ∷ []))

abbrev tasks_closed : ℕ → Task
tasks_closed = update tasks_closing 0 (set_continuations (tasks_closing 0) closed [])

abbrev calling_world : World
calling_world = alone tasks_closed 2 (calling 1 ∷ deliver [] ∷ [])

to_calling : Steps functions set_world calling_world
to_calling =
    onward
      (onward
        (onward
          (onward
            (onward stay (
              turn [] [] [] [] refl refl
                (set_lock {t = 0} {ph = closing} {ts = 1 ∷ []} (refl, refl, refl))))
            (turn [] [] [] [] refl refl (
              flush_all {t = 0} {ph = closed} {ts = []} {flushed = 1 ∷ []}
                (refl, refl, refl, refl))))
          (turn [] [] [] [] refl refl (deliver_next {c = 1} {ts = []})))
        (turn [] [] [] [] {stack = deliver [] ∷ []} refl refl (run_inline {c = 1} refl)))
      (turn [] [] [] [] {stack = deliver [] ∷ []} refl refl (start {t = 1}))

to_set_world : Reach functions 1 set_world
to_set_world = Reach-Steps functions 1 to_waiting to_set

to_calling_world : Reach functions 1 calling_world
to_calling_world = Reach-Steps functions 1 to_set_world to_calling

destroy-Freed_example : Freed event (destroy event (set_world.tasks 0))
destroy-Freed_example = destroy-Freed functions 1 0 to_set_world

called_in_time_example :
    (is_finished completed ≡ true)
    × ((s : Scheduler) (u : Bool)
        → functions 1 ≡ on_value s u 0
        → (v : ℕ) × ((calling_world.tasks 0).result ≡ some v))
called_in_time_example =
    called_in_time functions 1 [] [] 1 0 (deliver [] ∷ []) to_calling_world refl refl

thread_advances_example : CanTurn functions tasks_set 2 [] (lock 0)
thread_advances_example = thread_advances functions 1 [] [] (lock 0) [] to_set_world refl

one_holder_example :
    (load (starts 1) waiting_world ≡ 1)
    × (load (ends functions 1) waiting_world ≡ 0)
    × (load (locks 1) waiting_world ≡ 0)
    × (load (flushes 1) waiting_world ≡ 0)
one_holder_example = one_holder functions 1 1 to_waiting (omega arith)

unfinished_waits_example : Reason (functions 1) waiting_world 1 pending functions
unfolding is_finished
unfinished_waits_example =
    unfinished_waits functions 1 1 to_waiting (record { no_command = (refl, tt); no_handle = refl })
      (omega arith) refl
