-- ===== src/Notify.antt =====
-- src/notify.rs: the primitive that wakes one waiter or all of them.
pub mod State
pub mod Steps
pub mod Invariant
pub mod Moves
pub mod Kept
pub mod Bump
pub mod Release
pub mod Reach
pub mod Safety
pub mod Contract
mod Tests
