-- ===== src/Pool.antt =====
-- xutex-pool/src/lib.rs and src/wait_queue.rs, `WaitQueue`: the pool of queues, and the pointers to
-- them.
pub mod Pointer
pub mod SegQueue
pub mod State
pub mod Steps
pub mod Invariant
pub mod Moves
pub mod Reach
pub mod Contract
pub mod Refinement
pub mod Safety
pub mod Progress
pub mod Alone
mod Tests
