-- ===== src/WorkStealQueue.antt =====
-- src/work_steal_queue.h: the work-stealing deque of one thread of the pool.
pub mod Signed
pub mod Array
pub mod Moves
pub mod Deque
pub mod System
pub mod Inv
pub mod Owner
pub mod OwnerEffect
pub mod Thief
pub mod Safety
pub mod Linear
pub mod Phases
pub mod Possible
pub mod Claimed
pub mod Linearizable
pub mod Progress
pub mod Dispose
mod Tests
