-- ===== src/Semaphore/Awake.antt =====
-- src/semaphore.rs: no wakeup is lost.
pub mod Defs
pub mod Moves
pub mod Local
pub mod Shared
pub mod Trade
pub mod Steps
