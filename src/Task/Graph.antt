-- ===== src/Task/Graph.antt =====
-- crates/nxr-task/src/graph.rs: task graphs. The data, `from_tasks` and the subgraphs are in `Defs`.
pub mod Defs
pub mod Expand
pub mod Rows
pub mod Closed
pub mod Union
