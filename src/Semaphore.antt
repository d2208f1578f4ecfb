-- ===== src/Semaphore.antt =====
-- src/semaphore.rs: the permit-counting core and the threads and tasks that run it.
pub mod State
pub mod Steps
pub mod System
pub mod Invariant
pub mod Awake
pub mod Supply
pub mod Safety
pub mod Permits
pub mod Contract
pub mod Order
pub mod Encoding
mod Tests
