-- ===== src/Output.antt =====
-- crates/nxr-process: output of the children. `Coalesce` holds the chunk coalescer.
pub mod Coalesce
pub mod Bytes
pub mod Flow
pub mod Runs
mod Tests
