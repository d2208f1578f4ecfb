-- ===== src/Semaphore/Invariant.antt =====
-- src/semaphore.rs: what every interleaving keeps, in a child for each kind of step.
pub mod Defs
pub mod Moves
pub mod Local
pub mod Serve
pub mod Assign
pub mod Signal
pub mod Trade
pub mod Steps
