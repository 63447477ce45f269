-- ===== src/Task/Scheduler/Start.antt =====
-- crates/nxr-task/src/scheduler.rs: building a scheduler from a plan, and starting ready nodes.
use nxr.Base.{
  ℕ, zero, suc, Bool, true, false, ◌&&◌, List, [], ◌∷◌, ◌++◌, Option, none, some, String, length,
  find, if◌then◌else◌, ltb, ◌==◌,
}
use nxr.Base.Order.{string_ord}
use nxr.Base.Map
use nxr.Base.Set
use nxr.Base.{get_or}
use nxr.Task.Resources.{NodeResources, cpu_tokens, ResourceLimits, from_jobs}
use nxr.Task.Plan.{FailurePolicy, PlanNode, ExecutionPlan}
use nxr.Task.Scheduler.State.{
  Scheduler, SchedulerError, invalid_jobs, unschedulable_cpu, unschedulable_memory, Result, ok, err,
  NodeState, pending, ready, running, succeeded, failed, cancelled, skipped, is_empty,
  is_interactive, has_interactive_in_flight, can_acquire_resources, acquire_resources,
  format_memory_bytes,
}
use nxr.Task.Scheduler.Exit.{cancel_all_not_started}

-- The first error over the nodes in the order of their ids.
unfoldable pub validate_nodes :
    ResourceLimits → List (String × NodeResources) → Option SchedulerError
validate_nodes limits [] = none
validate_nodes limits ((task, r) ∷ rest) =
    let others = validate_nodes limits rest in
    if ltb limits.cpu_pool (cpu_tokens r)
    then some (unschedulable_cpu task (cpu_tokens r) limits.cpu_pool)
    else if ltb 0 r.memory_bytes
        && ltb 0 limits.memory_pool
        && ltb limits.memory_pool r.memory_bytes
    then some (
        unschedulable_memory task (format_memory_bytes r.memory_bytes)
          (format_memory_bytes limits.memory_pool))
    else others

unfoldable pub validate_schedulability : Scheduler → Result Scheduler
validate_schedulability s = elim (validate_nodes s.resource_limits s.node_resources) [
  | none ↦ ok s
  | some e ↦ err e
]

-- `entry(id).or_default()`
unfoldable pub or_default : String → List (String × List String) → List (String × List String)
or_default id m = Map.insert id (get_or (Map.get id m) []) m

-- The first loop of `new`: a node's row in every table.
unfoldable pub register : Scheduler → PlanNode → Scheduler
register s node = record s {
  interactive = Map.insert node.id node.interactive s.interactive;
  node_resources = Map.insert node.id node.resources s.node_resources;
  states = Map.insert node.id pending s.states;
  remaining_deps = Map.insert node.id (length node.depends_on) s.remaining_deps;
  dependents = or_default node.id s.dependents;
}

unfoldable pub register_all : Scheduler → List PlanNode → Scheduler
register_all s [] = s
register_all s (node ∷ nodes) = register_all (register s node) nodes

-- The second loop: the dependents of a dependency.
unfoldable pub link : String → String → List (String × List String) → List (String × List String)
link id dep m = Map.insert dep (Set.insert id (get_or (Map.get dep m) [])) m

unfoldable pub link_node :
    String → List String → List (String × List String) → List (String × List String)
link_node id [] m = m
link_node id (dep ∷ deps) m = link_node id deps (link id dep m)

unfoldable pub link_all : List PlanNode → List (String × List String) → List (String × List String)
link_all [] m = m
link_all (node ∷ nodes) m = link_all nodes (link_node node.id node.depends_on m)

-- The third loop: a node without dependencies is ready.
unfoldable pub seed : Scheduler → List (String × ℕ) → Scheduler
seed s [] = s
seed s ((id, deg) ∷ rest) =
    seed
      (if deg == 0
        then record s {
          ready_set = Set.insert id s.ready_set;
          states = Map.insert id ready s.states;
        }
        else s)
      rest

unfoldable pub empty_scheduler : FailurePolicy → ℕ → ResourceLimits → Scheduler
empty_scheduler policy jobs limits = record {
  failure_policy = policy;
  jobs = jobs;
  resource_limits = limits;
  interactive = [];
  node_resources = [];
  states = [];
  remaining_deps = [];
  dependents = [];
  ready_set = [];
  running_set = [];
  held_locks = [];
  cpu_in_use = 0;
  memory_in_use = 0;
  fail_fast_tripped = false;
}

unfoldable pub build : FailurePolicy → ℕ → ResourceLimits → List PlanNode → Scheduler
build policy jobs limits nodes =
    let s = register_all (empty_scheduler policy jobs limits) nodes in
    seed (record s { dependents = link_all nodes s.dependents }) s.remaining_deps

-- `Scheduler::new`; `env_pool` is the memory pool that the environment sets.
unfoldable pub new : (env_pool : ℕ) → ExecutionPlan → (jobs : ℕ) → Result Scheduler
new env_pool plan jobs =
    if jobs == 0
    then err (invalid_jobs 0)
    else validate_schedulability
        (build plan.failure_policy jobs (from_jobs jobs env_pool) plan.nodes)

unfoldable pub with_resource_limits : Scheduler → ResourceLimits → Result Scheduler
with_resource_limits s limits = validate_schedulability (record s { resource_limits = limits })

unfoldable pub with_failure_policy : Scheduler → FailurePolicy → Scheduler
with_failure_policy s policy = record s { failure_policy = policy }

-- One round of the loop of `schedule_ready`: it ends, starts a last node, or starts one and goes on.
pub data Next : Type 0 where
  stop : Next
  last more : (id : String) → Next

unfoldable pub pick : Scheduler → List String → Next
pick s started =
    if ltb (length s.running_set) s.jobs
    then elim (find (can_acquire_resources s) s.ready_set) [
      | none ↦ stop
      | some id ↦
          if is_interactive s id
          then if is_empty s.running_set && is_empty started then last id else stop
          else more id
    ]
    else stop

unfoldable pub start_node : Scheduler → String → Scheduler
start_node s id =
    let s' = acquire_resources (record s { ready_set = Set.remove id s.ready_set }) id in
    record s' {
      states = Map.insert id running s'.states;
      running_set = Set.insert id s'.running_set;
    }

unfoldable pub start_loop : ℕ → Scheduler → List String → Scheduler × List String
start_loop zero s started = (s, started)
start_loop (suc fuel) s started = elim (pick s started) [
  | stop ↦ (s, started)
  | last id ↦ (start_node s id, started ++ id ∷ [])
  | more id ↦ start_loop fuel (start_node s id) (started ++ id ∷ [])
]

-- Every round takes a node out of the ready set, so its size bounds the rounds.
unfoldable pub schedule_ready : Scheduler → Scheduler × List String
schedule_ready s =
    if s.fail_fast_tripped
    then (cancel_all_not_started s, [])
    else if has_interactive_in_flight s
    then (s, [])
    else start_loop (suc (length s.ready_set)) s []

pub record ScheduleOutcome : Type 0 where
  pub success : Bool
  pub cancelled_run : Bool
  pub failed_nodes : List String
  pub cancelled_nodes : List String
  pub skipped_nodes : List String

unfoldable pub tally : ScheduleOutcome → String → NodeState → ScheduleOutcome
tally o id succeeded = o
tally o id failed = record o { success = false; failed_nodes = o.failed_nodes ++ id ∷ [] }
tally o id cancelled = record o { success = false; cancelled_nodes = o.cancelled_nodes ++ id ∷ [] }
tally o id skipped = record o { success = false; skipped_nodes = o.skipped_nodes ++ id ∷ [] }
tally o id _ = record o { success = false }

unfoldable pub tally_all : ScheduleOutcome → List (String × NodeState) → ScheduleOutcome
tally_all o [] = o
tally_all o ((id, st) ∷ rest) = tally_all (tally o id st) rest

unfoldable pub outcome : Scheduler → ScheduleOutcome
outcome s =
    tally_all
      (record {
        success = true;
        cancelled_run = s.fail_fast_tripped;
        failed_nodes = [];
        cancelled_nodes = [];
        skipped_nodes = [];
      })
      s.states
