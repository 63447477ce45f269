-- ===== src/Task/Building/Plans.antt =====
-- crates/nxr-task/src/plan_exec.rs: what `build_execution_plan_roots` returns.
use nxr.Base.{◌≡◌, true, List, [], ◌∷◌, String}
use nxr.Base.Order.{string_ord}
use nxr.Base.Set.{contains}
use nxr.Base.Map
use nxr.Task.Schema.{Tasks}
use nxr.Task.Rows.{children}
use nxr.Task.Matrix
use nxr.Task.Matrix.{MatrixExpansion, expand_matrix_tasks, expand_matrix_roots}
use nxr.Task.Graph.Defs.{ok, node_ids}
use nxr.Task.Graph.Expand.{depends_on}
use nxr.Task.Planner.Serial.{Sequenced}
use nxr.Task.Plan.{FailurePolicy, ExecutionPlan}
use nxr.Task.Building.Nodes.{IsNode, Waves}
use nxr.Base.{Bool, All, length, ltb, if◌then◌else◌}
use nxr.Task.Building.Valid.{rows_of}

-- What a plan of some roots is, its nodes being read as rows of dependencies.
pub record IsPlan (tasks : Tasks) (roots : List String) (failure_policy : FailurePolicy)
    (plan : ExecutionPlan) : Type 0 where
  pub expansion : MatrixExpansion
  pub expanded : expand_matrix_tasks tasks ≡ Matrix.ok expansion
  pub sorted : Map.IsSorted (rows_of plan.nodes)
  pub listed :
      (n : String) → contains n plan.serial_order ≡ contains n (node_ids (rows_of plan.nodes))
  pub ordered : Sequenced (rows_of plan.nodes) [] plan.serial_order
  pub rooted :
      (n : String)
      → contains n (expand_matrix_roots roots expansion) ≡ true
      → contains n plan.serial_order ≡ true
  pub rewired :
      (n d : String)
      → contains n plan.serial_order ≡ true
      → contains d (children (rows_of plan.nodes) n) ≡ contains d (depends_on expansion.tasks n)
  pub closed :
      (n d : String)
      → contains n plan.serial_order ≡ true
      → contains d (depends_on expansion.tasks n) ≡ true
      → contains d plan.serial_order ≡ true
  pub least :
      (holds : String → Bool)
      → ((n : String) → contains n (expand_matrix_roots roots expansion) ≡ true → holds n ≡ true)
      → ((n d : String)
          → holds n ≡ true
          → contains d (depends_on expansion.tasks n) ≡ true
          → holds d ≡ true)
      → (n : String) → contains n plan.serial_order ≡ true
      → holds n ≡ true
  pub described : All (IsNode expansion.tasks) plan.nodes
  pub waves : Waves plan.waves plan.serial_order
  pub other_roots : List String
  pub root_eq : expand_matrix_roots roots expansion ≡ plan.root ∷ other_roots
  pub roots_eq : plan.roots ≡ (
      if ltb 1 (length (expand_matrix_roots roots expansion))
      then expand_matrix_roots roots expansion
      else [])
  pub policy : plan.failure_policy ≡ failure_policy
