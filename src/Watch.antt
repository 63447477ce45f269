-- ===== src/Watch.antt =====
-- The crate nxr-watch: when changes restart a task.
pub mod Restart
pub mod Ready
mod Tests
