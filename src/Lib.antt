-- ===== src/Lib.antt =====
-- nxr runs the apps and tasks of a Nix flake. This library models the core of its Rust crates and
-- proves what makes it correct.
--
-- Base is shared: Boolean tests, lists, `Ord`, `BTreeMap` and `BTreeSet` as sorted lists (Base/Map,
-- Base/Set), the fixed-width arithmetic (Base/Words), and decimal numbers. Strings are native; their
-- order by code points is the order of their bytes.
--
-- Task/Scheduler (crates/nxr-task/src/scheduler.rs, with Task/Resources for resources.rs and Task/Plan
-- for the plan of plan_exec.rs) is the ready-queue scheduler. `State` has the struct and the resource
-- pool, `Start` has `new`, `schedule_ready` and `outcome`, `Exit` has `on_exit`. A call takes the
-- scheduler and returns the new one. The loop of `schedule_ready` takes a node out of the ready set
-- in each round, so the size of that set bounds its rounds; the loop of `cancel_transitive_dependents`
-- expands a node once, so twice the number of edges bounds its rounds. A run is any sequence of
-- `schedule_ready` and successful `on_exit` calls (Task/Scheduler/Loop). The memory pool that an
-- environment variable sets is an argument of `new`.
--
-- Task/Schema (crates/nxr-task/src/schema.rs) has the fields of a task that graphs, matrices, plans and
-- selectors read; a JSON number is kept as its printed text. Task/Matrix (matrix.rs) replaces a task with a matrix by a task for each entry. Task/Operation
-- (crates/nxr-core/src/operation.rs) is what a node runs. Task/Building (plan_exec.rs) builds a plan:
-- matrices are expanded, the graph of the roots is sorted, and the nodes are read from the graph; the
-- event that a sink is sent is not modelled. Task/Memory and Task/Duration (memory.rs, duration.rs)
-- parse quantities; a duration is a number of milliseconds. Task/Resolve and Task/Selectors (resolve.rs,
-- selectors.rs) resolve names, aliases and selectors to tasks; `Targets` is the state of the loop over the
-- tokens.
--
-- Task/Graph (crates/nxr-task/src/graph.rs) builds the graph of the tasks that some roots depend on. The
-- worklist expands a task once, so the number of dependencies bounds the rounds for each root. The text, Mermaid and DOT renderings are not modelled.
--
-- Task/Planner (crates/nxr-task/src/planner.rs) sorts such a graph. Each round takes one node, so the
-- number of nodes bounds the rounds. The order is collected with its end first. Task/Rows has the tables
-- of dependents that the planner and the scheduler count by.
--
-- Worker (crates/nxr-core/src/worker_schedule.rs) is the registry of workers: `Registry` has the
-- operations, `Lease` the runs of calls. Where the source reads the clock, the reading is an argument.
-- Error messages are constructors.
--
-- Output (crates/nxr-process/src/chunk_coalesce.rs) holds output per node and stream before it is
-- emitted. Hash maps are lists in any order, and clock readings are arguments.
--
-- Affected (crates/nxr-affected/src) finds the apps and tasks that changed paths affect. `Text` has the
-- string and path operations, `Paths` is paths.rs with the calls of the globset library as an argument
-- (`Globs`), `Graph` is graph.rs, and `Marks`, `Analyze` and `Results` are analyze.rs. A key is queued
-- once, so the keys queued at first and the edges bound the rounds of `propagate_dependencies`. git.rs,
-- which calls git, is not modelled.
--
-- Logs (crates/nxr-core/src/log_broker.rs) is the broker of log streams. A send to a connected
-- subscriber is a delivery, and which subscribers are connected is an argument; waiting for a full
-- channel is not modelled. The mutex makes each call one step.
--
-- Deadline (crates/nxr-process/src/deadline.rs) is the queue of deadlines; its heap is the list of its
-- entries in the order in which they are popped.
--
-- Watch (crates/nxr-watch/src/restart.rs and change.rs) has the debouncer, the generation counter and the
-- merging of change classes; clock readings are arguments, in milliseconds.
--
-- The rest starts processes, calls nix and git, reads and writes files, keeps caches of digests, and serves
-- the command line; it is not modelled.
pub mod Affected
pub mod Base
pub mod Deadline
pub mod Logs
pub mod Output
pub mod Task
pub mod Watch
pub mod Worker
