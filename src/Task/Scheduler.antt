-- ===== src/Task/Scheduler.antt =====
-- crates/nxr-task/src/scheduler.rs: the ready-queue scheduler over an execution plan. `State` holds
-- its fields and resource accounting, `Start` construction and starting, `Exit` the exit of a node.
pub mod State
pub mod Start
pub mod Exit
pub mod Loop
pub mod Frame
pub mod Bounds
pub mod Locks
pub mod States
pub mod Build
pub mod Runs
pub mod Unmet
pub mod Order
pub mod Release
pub mod Scheduled
pub mod Links
pub mod Registered
pub mod Saturation
pub mod FailFast
pub mod Outcome
mod Tests
pub mod Life
pub mod Interactive
