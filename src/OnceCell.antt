-- ===== src/OnceCell.antt =====
-- src/once_cell.rs: the cell that is initialized once, blocking and asynchronous.
pub mod State
pub mod Steps
pub mod Invariant
pub mod Moves
pub mod Tell
pub mod Reach
pub mod Failure
pub mod Success
pub mod Safety
pub mod Awake
pub mod Contract
mod Tests
