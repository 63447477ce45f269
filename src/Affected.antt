-- ===== src/Affected.antt =====
-- The crate nxr-affected: which apps and tasks the changed paths affect.
pub mod Text
pub mod Paths
pub mod Graph
pub mod Marks
pub mod Analyze
pub mod Spread
pub mod Reach
pub mod Loop
pub mod Closing
pub mod Built
pub mod Prefix
pub mod Results
pub mod Listed
pub mod Empty
mod Tests
