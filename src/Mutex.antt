-- ===== src/Mutex.antt =====
-- src/lib.rs: the mutex with its queue of waiters, blocking and asynchronous.
pub mod Steps
pub mod Invariant
pub mod Handover
pub mod Release
pub mod Safety
mod Tests
