-- ===== src/TaskWaitEvent/Tests.antt =====
-- A thread that waits for its task is woken because there is work.
use asyncplusplus.Prelude.{◌≡◌, refl, true, some}
use asyncplusplus.TaskWaitEvent.{task_available, TaskWaitEvent, new_event, init, wait, signal}

abbrev finished : TaskWaitEvent
finished = record { event_mask = 1; initialized = true }

both : (wait (signal finished task_available)).0 ≡ some 3
unfolding wait signal
both = refl

init_once : init (init new_event) ≡ init new_event
unfolding init
init_once = refl
