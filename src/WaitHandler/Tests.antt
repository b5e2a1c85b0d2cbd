-- ===== src/WaitHandler/Tests.antt =====
-- Thread 0 adds its continuation before the task finishes, thread 1 after.
use asyncplusplus.Prelude.{ℕ, ◌≡◌, refl, true, false, some}
use asyncplusplus.TaskWaitEvent
use asyncplusplus.TaskWaitEvent.{wait, signal}
use asyncplusplus.Task.{TaskState, completed, is_finished}
use asyncplusplus.WaitHandler
use asyncplusplus.WaitHandler.{
  Shared, Pc, WaitMove, Finisher, running, FinishMove, World, Reach, begin, later, waits, acts,
  start, sleeping, done,
}
use asyncplusplus.WaitHandler.Knows.{held}
use asyncplusplus.WaitHandler.Laws.{wait_returns, wait_ends}

abbrev Run : Type 0
Run = (w : World) × Reach w

abbrev go :
    (r : Run) (i : ℕ) {pc : Pc} {s : Shared} → WaitMove i r.0.shared (r.0.threads i) pc s → Run
go r i m = (_, later r.1 (waits i m))

abbrev act : (r : Run) {f : Finisher} {s : Shared} → FinishMove r.0.shared r.0.finisher f s → Run
act r m = (_, later r.1 (acts m))

unfinished : is_finished TaskState.pending ≡ false
unfolding is_finished
unfinished = refl

completed_finished : is_finished completed ≡ true
unfolding is_finished
completed_finished = refl

abbrev both_added : Run
both_added =
    let r : Run = (start, begin) in
    let r : Run = go r 0 (WaitHandler.finds_unfinished unfinished) in
    let r : Run = go r 1 (WaitHandler.finds_unfinished unfinished) in
    let r : Run = go r 0 WaitHandler.creates in
    let r : Run = go r 1 WaitHandler.creates in
    let r : Run = go r 0 (WaitHandler.finds_not_done unfinished) in
    let r : Run = go r 1 (WaitHandler.finds_not_done unfinished) in
    let r : Run = go r 0 (WaitHandler.adds refl) in
    let r : Run = act r (WaitHandler.finishes completed completed_finished) in
    let r : Run = act r WaitHandler.flushes in
    let r : Run = go r 1 (WaitHandler.adds_late refl) in act r WaitHandler.runs

signalled : (wait (both_added.0.shared.events 0)).0 ≡ some 1
unfolding wait signal TaskWaitEvent.init
signalled = refl

abbrev first_returned : Run
first_returned =
    let r : Run = go both_added 0 (WaitHandler.wakes signalled) in go r 0 WaitHandler.reloads

wait_ends_example : (m : ℕ) × ((wait (both_added.0.shared.events 1)).0 ≡ some m)
wait_ends_example = wait_ends both_added.0 1 both_added.1 refl refl

wait_returns_example :
    (is_finished completed ≡ true)
    × (completed ≡ first_returned.0.shared.state)
    × (held first_returned.0.shared first_returned.0.finisher 0 ≡ 0)
wait_returns_example = wait_returns first_returned.0 0 completed first_returned.1 refl
