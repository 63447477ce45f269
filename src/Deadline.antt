-- ===== src/Deadline.antt =====
-- crates/nxr-process/src/deadline.rs: the queue of deadlines of the supervision loops.
pub mod Queue
pub mod Expired
pub mod Order
mod Tests
