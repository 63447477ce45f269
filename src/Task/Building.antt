-- ===== src/Task/Building.antt =====
-- crates/nxr-task/src/plan_exec.rs and resources.rs: plans built from task definitions.
pub mod Valid
pub mod Nodes
pub mod Plans
mod Tests
use nxr.Base.{ℕ, Bool, List, [], ◌∷◌, Option, none, some, String, get_or}
use nxr.Base.Order.{string_ord}
use nxr.Base.Map.{get}
use nxr.Task.Schema.{TaskResources, TaskDefinition, Tasks, SchemaError, invalid_matrix}
use nxr.Task.Resources.{NodeResources, empty_resources}
use nxr.Task.Memory
use nxr.Task.Memory.{parse_memory}
use nxr.Task.Operation.{from_task_app}
use nxr.Task.Matrix
use nxr.Task.Matrix.{MatrixExpansion, expand_matrix_tasks, expand_matrix_roots}
use nxr.Task.Graph.Defs.{
  GraphError, unknown_root, missing_dependency, Result, ok, err, ◌>>=◌, TaskGraph, dependencies,
  node_ids, subgraph_union,
}
use nxr.Task.Planner.Defs.{plan_serial_union}
use nxr.Task.Plan.{FailurePolicy, fail_fast, ArgumentForwarding, PlanNode, ExecutionPlan}

-- A memory that does not parse counts as none.
unfoldable pub memory_of : Option String → ℕ
memory_of none = 0
memory_of (some raw) = elim (parse_memory raw) [ Memory.ok bytes ↦ bytes | Memory.err _ ↦ 0 ]

unfoldable pub from_task_resources : TaskResources → NodeResources
from_task_resources r = record {
  cpu = get_or r.cpu 0;
  memory_bytes = memory_of r.memory;
  exclusive = r.exclusive;
}

unfoldable pub resources_of : Option TaskResources → NodeResources
resources_of none = empty_resources
resources_of (some r) = from_task_resources r

unfoldable pub plan_node : TaskGraph → String → TaskDefinition → PlanNode
plan_node graph id definition = record {
  id = id;
  depends_on = get_or (dependencies graph id) [];
  interactive = definition.interactive;
  resources = resources_of definition.resources;
  operation = some (from_task_app definition.app);
  platform = none;
  architecture = none;
  environment = [];
  working_directory = none;
  artifacts = [];
  inputs = [];
}

unfoldable pub plan_nodes : Tasks → TaskGraph → List String → List PlanNode
plan_nodes tasks graph [] = []
plan_nodes tasks graph (id ∷ ids) =
    let rest = plan_nodes tasks graph ids in
    elim (get id tasks) [ none ↦ rest | some definition ↦ plan_node graph id definition ∷ rest ]

unfoldable pub singletons : List String → List (List String)
singletons [] = []
singletons (id ∷ ids) = (id ∷ []) ∷ singletons ids

unfoldable pub extra_roots : List String → List String
extra_roots [] = []
extra_roots (root ∷ []) = []
extra_roots (root ∷ other ∷ roots) = root ∷ other ∷ roots

unfoldable pub matrix_plan_error : SchemaError → GraphError
matrix_plan_error (invalid_matrix task message) = missing_dependency "matrix" message

unfoldable pub expansion_of : Tasks → Result MatrixExpansion
expansion_of tasks = elim (expand_matrix_tasks tasks) [
  | Matrix.ok x ↦ ok x
  | Matrix.err e ↦ err (matrix_plan_error e)
]

-- The envelope. There is a root, since the graph of no roots is refused.
unfoldable pub envelope :
    Tasks → FailurePolicy → List String → List String → TaskGraph → Result ExecutionPlan
envelope tasks failure_policy [] serial_order graph = err (unknown_root "")
envelope tasks failure_policy (root ∷ roots) serial_order graph = ok (record {
  schema_version = 1;
  root = root;
  roots = extra_roots (root ∷ roots);
  failure_policy = failure_policy;
  argument_forwarding = ArgumentForwarding.root;
  nodes = plan_nodes tasks graph (node_ids graph.deps);
  serial_order = serial_order;
  waves = singletons serial_order;
})

unfoldable pub build_execution_plan_roots :
    Tasks → List String → FailurePolicy → Result ExecutionPlan
build_execution_plan_roots tasks roots failure_policy = expansion_of tasks >>= λ x.
    let expanded = expand_matrix_roots roots x in
    plan_serial_union x.tasks expanded >>= λ order. subgraph_union x.tasks expanded >>= λ graph.
    envelope x.tasks failure_policy expanded order graph

unfoldable pub build_execution_plan : Tasks → String → FailurePolicy → Result ExecutionPlan
build_execution_plan tasks root failure_policy =
    build_execution_plan_roots tasks (root ∷ []) failure_policy

unfoldable pub build_serial_plan : Tasks → String → Result ExecutionPlan
build_serial_plan tasks root = build_execution_plan tasks root fail_fast
