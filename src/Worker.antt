-- ===== src/Worker.antt =====
-- crates/nxr-core/src/worker_schedule.rs: the choice and the reservation of workers. `Registry` holds
-- the registry and its operations.
pub mod Registry
pub mod Reserve
pub mod Select
pub mod Lease
mod Tests
