-- ===== src/Parallel.antt =====
-- The parallel algorithms of include/async++: parallel_for.h, parallel_reduce.h, parallel_invoke.h.
pub mod Interleave
pub mod Covers
pub mod For
pub mod Reduce
pub mod Invoke
mod Tests
