-- ===== src/Task.antt =====
-- The crate nxr-task: task graphs, execution plans and the ready-queue scheduler.
pub mod Resources
pub mod Schema
pub mod Matrix
pub mod Operation
pub mod Plan
pub mod Memory
pub mod Duration
pub mod Rows
pub mod Scheduler
pub mod Graph
pub mod Planner
pub mod Building
pub mod Resolve
pub mod Selectors
mod Tests
