-- ===== src/ThreadPool.antt =====
-- src/threadpool_scheduler.cpp: how the pool starts its threads, its list of sleeping threads, and
-- its main loop.
pub mod Spawn
pub mod Waiters
pub mod WaitersLaws
pub mod WaitersSlots
pub mod PoolState
pub mod Loop
mod Tests
