-- ===== src/Task/Building/Nodes.antt =====
-- crates/nxr-task/src/plan_exec.rs and resources.rs: the nodes, the waves and the roots of a plan.
use nxr.Base.{
  ℕ, ◌≡◌, refl, List, [], ◌∷◌, Option, none, some, String, arith, All, get_or, Option-cases, inl,
  inr, length, ltb, if◌then◌else◌,
}
use nxr.Base.Order.{string_ord}
use nxr.Base.Map.{get}
use nxr.Task.Schema.{TaskResources, TaskDefinition, Tasks}
use nxr.Task.Memory
use nxr.Task.Memory.{parse_memory}
use nxr.Task.Operation.{flake_app, from_task_app}
use nxr.Task.Graph.Defs.{TaskGraph}
use nxr.Task.Plan.{PlanNode}
use nxr.Task.Building.{
  memory_of, from_task_resources, resources_of, plan_node, plan_nodes, singletons, extra_roots,
}

-- What a task declares, where it declares resources.
abbrev pub declared_cpu : Option TaskResources → ℕ
declared_cpu none = 0
declared_cpu (some r) = get_or r.cpu 0

abbrev pub declared_locks : Option TaskResources → List String
declared_locks none = []
declared_locks (some r) = r.exclusive

abbrev pub parsed : Memory.Parsed ℕ → ℕ
parsed (Memory.ok bytes) = bytes
parsed (Memory.err _) = 0

abbrev pub declared_bytes : Option TaskResources → ℕ
declared_bytes none = 0
declared_bytes (some r) = elim r.memory [ none ↦ 0 | some raw ↦ parsed (parse_memory raw) ]

-- A node of a plan is a task of its id: it runs the task's app with the task's mode and demands.
pub record IsNode (tasks : Tasks) (node : PlanNode) : Type 0 where
  pub definition : TaskDefinition
  pub found : get node.id tasks ≡ some definition
  pub runs : node.operation ≡ some (flake_app definition.app)
  pub same_mode : node.interactive ≡ definition.interactive
  pub cpu : node.resources.cpu ≡ declared_cpu definition.resources
  pub locks : node.resources.exclusive ≡ declared_locks definition.resources
  pub bytes : node.resources.memory_bytes ≡ declared_bytes definition.resources

memory_of_lem :
    (memory : Option String)
    → memory_of memory ≡ (elim memory [ none ↦ 0 | some raw ↦ parsed (parse_memory raw) ])
unfolding memory_of
memory_of_lem none = refl
memory_of_lem (some raw) = grind arith

module _ (tasks : Tasks) (graph : TaskGraph) where
  plan_node-IsNode :
      (id : String) (d : TaskDefinition) (r : Option TaskResources)
      → d.resources ≡ r
      → get id tasks ≡ some d
      → IsNode tasks (plan_node graph id d)
  unfolding plan_node from_task_app resources_of from_task_resources
  plan_node-IsNode id d none e g = record {
    definition = d;
    found = g;
    runs = refl;
    same_mode = refl;
    cpu = rw e refl;
    locks = rw e refl;
    bytes = rw e refl;
  }
  plan_node-IsNode id d (some r) e g = record {
    definition = d;
    found = g;
    runs = refl;
    same_mode = refl;
    cpu = rw e refl;
    locks = rw e refl;
    bytes = rw e (memory_of_lem r.memory);
  }

  pub plan_nodes-IsNode : (ids : List String) → All (IsNode tasks) (plan_nodes tasks graph ids)
  unfolding plan_nodes
  plan_nodes-IsNode [] = tt
  plan_nodes-IsNode (id ∷ ids) = elim (Option-cases (get id tasks)) [
    | inl e ↦ rw (e, plan_nodes) (plan_nodes-IsNode ids)
    | inr (d, e) ↦
        rw (e, plan_nodes) (plan_node-IsNode id d d.resources refl e, plan_nodes-IsNode ids)
  ]

-- Waves that hold one task each, in the given order.
abbrev pub Waves : List (List String) → List String → Type 0
Waves [] [] = Unit
Waves [] (n ∷ order) = ⊥
Waves (wave ∷ waves) [] = ⊥
Waves (wave ∷ waves) (n ∷ order) = (wave ≡ n ∷ []) × Waves waves order

pub singletons-Waves : (order : List String) → Waves (singletons order) order
unfolding singletons
singletons-Waves [] = tt
singletons-Waves (n ∷ order) = (refl, singletons-Waves order)

pub extra_roots_lem :
    (roots : List String) → extra_roots roots ≡ (if ltb 1 (length roots) then roots else [])
unfolding extra_roots
extra_roots_lem [] = refl
extra_roots_lem (r ∷ []) = refl
extra_roots_lem (r ∷ other ∷ roots) = ground arith
