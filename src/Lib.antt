-- ===== src/Lib.antt =====
-- Async++, a C++ library of tasks: spawn functions on a scheduler, chain continuations, run loops in
-- parallel. This is a model of its tasks, its queues, its continuation vector, its parallel
-- algorithms and its thread pool.
--
-- Parts of the program, and the file that models each (paths from the repository's root):
-- - src/fifo_queue.h, the task queue of `fifo_scheduler` and of threads outside of the pool: FifoQueue.
--   `push`, `pop`, the constructor and the destructor are functions on the record of the members; the
--   inner steps of `push` (`resize`, `put`) have functions of their own.
-- - src/work_steal_queue.h, the deque of each thread of the pool: WorkStealQueue. `push`, `pop` and
--   `steal` are relations of steps, one access of a shared member each (Moves); System interleaves
--   one owner with any number of thieves. Deque says what the steps do to the tasks in memory, and
--   Linear what it means that the calls are those of a plain double-ended list.
-- - include/async++/continuation_vector.h: ContinuationVector. `try_add` by any number of threads and
--   the one `flush_and_lock` are relations of steps in the same way (Moves), with what they promise
--   in Contract; the word that holds a pointer with two flags is CompressedPtr.
-- - include/async++/partitioner.h: Partitioner, with one interface of operations and laws (Interface)
--   that both partitioners fill (Static, Auto) and that the algorithms take as a parameter.
-- - include/async++/parallel_for.h, parallel_reduce.h and parallel_invoke.h: Parallel. A derivation of
--   `ParallelFor`, `MapReduce` or `Invoke` is one run; the task that is spawned for one half may
--   interleave its calls with the other half's in any way.
-- - src/threadpool_scheduler.cpp: ThreadPool, the start of the threads (Spawn, which goes on in spawned
--   threads as in a call), the list of sleeping threads, that the pool's mutex guards (Waiters), the
--   state of the pool (PoolState) and the main loop (Loop), in which the threads of the pool, threads
--   outside of it, the destructor and the continuations that signal a thread take steps in any order.
--   What is done under the mutex is one step; the deques and the public queue are the lists that
--   WorkStealQueue and FifoQueue are shown to refine. A thread has a stack of calls of
--   `thread_task_loop`, since a task that it runs may wait for another; `thread_of` says on which
--   thread's stack the address of a `task_wait_event` lies.
-- - include/async++/aligned_alloc.h: AlignedArray, the constructor and the destructor of
--   `aligned_array`, by their effects on its elements; Handles has the moves and assignments of its
--   variables, by their effects on the storage.
-- - include/async++/task_base.h: Task. Handlers has the functions of the virtual table and those they
--   call, cut at the points where another thread may come between: each thread has a stack of the
--   commands that it has yet to do. Operations has `spawn`, `then_internal` and the events of
--   include/async++/task.h, and `task_run_handle` of include/async++/scheduler.h. System has the turns
--   of a thread (Turn) and the steps of a world of any number of threads; the continuation vector of a
--   task moves by its contract. Weights says who holds a task; Local what a thread may rely on; Starts,
--   Ends, Locks, Flushes, Kept, Good and Commands follow one turn, and Safety has the invariant of all
--   reachable worlds.
-- - include/async++/ref_count.h: RefCount, the handles of reference-counted objects over a heap of
--   counts. The invariant (Counts) says that a count is the number of references and that an object is
--   deleted once, when it has none; Runs has any sequence of operations on handles and plain pointers.
-- - include/async++/when_all_any.h: WhenAll and WhenAny, the loop that adds a continuation to each task
--   as a relation of steps, between which the continuations added so far may run.
-- - src/task_wait_event.h: TaskWaitEvent, the set of events for which a thread sleeps.
-- - src/scheduler.cpp: FifoScheduler, over the functions of FifoQueue; what `std::strtoul` makes of the
--   environment and what the platform says of its processors are arguments of Hardware.
-- - src/singleton.h: Singleton, `get_instance` where it needs a mutex, by any number of threads.
-- - `task_base::wait`, `wait_for_task` and `generic_wait_handler` (src/scheduler.cpp): WaitHandler, any
--   number of threads that wait for one task, and the thread that finishes it.
-- - include/async++/range.h: IntRange, with unsigned integers of any width. include/async++/cancel.h:
--   CancellationToken.
-- - Prelude holds the shared lemmas, Word the arithmetic of `std::size_t`, Memory the allocator, which
--   is a parameter: what it returns, or that it throws, is up to the value of that record.
--
-- Numbers: `std::size_t` has 64 bits and its sums, differences and products wrap. A run of the deque
-- may push fewer than 2 ^ 62 tasks in all, so the differences that the code takes as signed do not
-- overflow; its arrays are no longer than 2 ^ 60, since no allocation is larger. Iterators are
-- positions below 2 ^ 63, so `std::distance` is exact.
--
-- A task is a number, the address of its `task_base`; 0 is the empty handle. Fuel: `drain_from` of
-- FifoQueue, `recursive_spawn` of ThreadPool, `run_all_tasks`, `traverse` and the `-total` theorems
-- recurse on a bound, and the theorems show that a bound above the number of slots, of threads, of
-- positions or of arguments, or the size of the tasks that wait, is enough.
--
-- Not modelled: weak memory (every access is sequentially consistent, so the fences have no effect),
-- spurious failures other than those of the weak compare-exchanges, exceptions of the map or of the
-- reduction in `parallel_map_reduce`, the failure of `local_spawn`, and that an implementation's
-- allocation larger than 2 ^ 60 slots could succeed. Of the tasks, the functions of the user are
-- arbitrary: a call returns a value, a task or an exception, and may start other tasks meanwhile. A
-- scheduler runs a task at once, keeps its handle or destroys it; one that throws from `schedule` is
-- left out, as are a continuation vector that is out of memory, `make_task` and `local_task`.
-- Task addresses are not reused. The result of `when_any` for a pack of tasks is not modelled. In the
-- main loop of the thread pool a push does not fail for lack of memory, no thread outside of the pool
-- schedules once the destructor has begun, and the hooks before and after a thread's run, the
-- thread-local pointers and the paths for platforms without a working join are left out.
pub mod Prelude
pub mod Word
pub mod Memory
pub mod FifoQueue
pub mod FifoScheduler
pub mod WorkStealQueue
pub mod Hardware
pub mod Partitioner
pub mod Parallel
pub mod ContinuationVector
pub mod AlignedArray
pub mod ThreadPool
pub mod WaitHandler
pub mod Singleton
pub mod RefCount
pub mod TaskWaitEvent
pub mod Task
pub mod WhenAll
pub mod WhenAny
pub mod IntRange
pub mod CancellationToken
