-- ===== src/ContinuationVector.antt =====
-- include/async++/continuation_vector.h: the continuations of a task, added by any threads until the
-- task finishes and flushes them.
pub mod CompressedPtr
pub mod Contract
pub mod Moves
pub mod Inv
pub mod Adder
pub mod AdderSpec
pub mod Flusher
pub mod Safety
mod Tests
