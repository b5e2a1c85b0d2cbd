-- ===== src/TaskWaitEvent.antt =====
-- `task_wait_event` of src/task_wait_event.h: the set of events that a sleeping thread waits for.
-- Its mutex makes each operation one step; the condition variable is the platform's.
pub mod Laws
mod Tests
use asyncplusplus.Prelude.{
  ℕ, ◌-◌, ◌==◌, Bool, true, false, not, Option, none, some, if◌then◌else◌, bit_and, bit_or,
}

pub data WaitType : Type 0 where
  task_finished task_available : WaitType

abbrev pub value : WaitType → ℕ
value task_finished = 1
value task_available = 2

pub record TaskWaitEvent : Type 0 where
  pub event_mask : ℕ
  pub initialized : Bool

abbrev pub new_event : TaskWaitEvent
new_event = record { event_mask = 0; initialized = false }

unfoldable pub init : TaskWaitEvent → TaskWaitEvent
init v = if not v.initialized then record v { initialized = true } else v

-- `none` while the thread sleeps; else the events that occurred.
unfoldable pub wait : TaskWaitEvent → Option ℕ × TaskWaitEvent
wait v = if v.event_mask == 0 then (none, v) else (some v.event_mask, record v { event_mask = 0 })

-- `~event`, of an `int`: all its bits but those of `event`.
abbrev pub complement : ℕ → ℕ
complement event = 4294967295 - event

unfoldable pub try_wait : TaskWaitEvent → WaitType → Bool × TaskWaitEvent
try_wait v e =
    let result = bit_and v.event_mask (value e) in
    (not (result == 0), record v { event_mask = bit_and v.event_mask (complement (value e)) })

unfoldable pub signal : TaskWaitEvent → WaitType → TaskWaitEvent
signal v e = record v { event_mask = bit_or v.event_mask (value e) }
