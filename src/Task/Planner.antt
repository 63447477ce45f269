-- ===== src/Task/Planner.antt =====
-- crates/nxr-task/src/planner.rs: the serial order of a task graph. The loop is in `Defs`.
pub mod Defs
pub mod Missing
pub mod Kahn
pub mod Tables
pub mod Serial
pub mod Complete
mod Tests
