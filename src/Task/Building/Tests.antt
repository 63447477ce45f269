-- ===== src/Task/Building/Tests.antt =====
-- crates/nxr-task/src/matrix.rs and plan_exec.rs: a task with a matrix, and the plan of a task that needs it.
use nxr.Base.{◌≡◌, refl, true, false, List, [], ◌∷◌, none, some, String, Option, arith}
use nxr.Base.Order.{string_ord, eqb_iff}
use nxr.Base.Set
use nxr.Base.Set.{contains}
use nxr.Base.Map
use nxr.Base.Map.{get}
use nxr.Base.Decimal.{decimal}
use nxr.Base.Texts.{is_whitespace, all_ident, is_blank, is_canonical_ident, ascii_uppercase}
use nxr.Task.Schema.{TaskMatrix, TaskDefinition, Tasks, string}
use nxr.Task.Matrix
use nxr.Task.Matrix.{
  Attrs, MatrixExpansion, matrix_node_id, matrix_value_to_string, validate_keys, validate_values,
  validate_matrix_attrs, validate_task_matrix, entry_ids, matrix_ids, collect_ids,
  expand_depends_on, expand_entries, expand_task, expand_all, expand_matrix_tasks, join,
}
use nxr.Task.Matrix.Expansion.{IsExpansion, expand_matrix_tasks-IsExpansion}
use nxr.Task.Graph.Defs.{ok, has_task}
use nxr.Task.Graph.Expand.{depends_on}
use nxr.Task.Operation.{flake_app}
use nxr.Task.Resources.{empty_resources}
use nxr.Task.Plan.{ExecutionPlan, PlanNode, ArgumentForwarding, fail_fast}

abbrev attr : String → Attrs
attr system = ("system", string system) ∷ []

abbrev task : List String → Option TaskMatrix → TaskDefinition
task deps matrix = record {
  depends_on = deps;
  app = "";
  working_directory = none;
  hidden = false;
  category = none;
  aliases = [];
  interactive = false;
  paths = [];
  resources = none;
  matrix = matrix;
}

abbrev node : String → List String → PlanNode
node id deps = record {
  id = id;
  depends_on = deps;
  interactive = false;
  resources = empty_resources;
  operation = some (flake_app "");
  platform = none;
  architecture = none;
  environment = [];
  working_directory = none;
  artifacts = [];
  inputs = [];
}

-- `all` needs `build`, which is built for two systems.
abbrev tasks : Tasks
tasks =
    ("all", task ("build" ∷ []) none)
    ∷ ("build", task [] (some (record { include = attr "a" ∷ attr "b" ∷ [] })))
    ∷ []

abbrev plan : ExecutionPlan
plan = record {
  schema_version = 1;
  root = "all";
  roots = [];
  failure_policy = fail_fast;
  argument_forwarding = ArgumentForwarding.root;
  nodes = node "all" ("build@0" ∷ "build@1" ∷ []) ∷ node "build@0" [] ∷ node "build@1" [] ∷ [];
  serial_order = "build@0" ∷ "build@1" ∷ "all" ∷ [];
  waves = ("build@0" ∷ []) ∷ ("build@1" ∷ []) ∷ ("all" ∷ []) ∷ [];
}

abbrev expansion : MatrixExpansion
expansion = record {
  tasks =
      ("all", task ("build@0" ∷ "build@1" ∷ []) none)
      ∷ ("build@0", task [] none)
      ∷ ("build@1", task [] none)
      ∷ [];
  instances =
      ("build@0", record { base_task = "build"; attrs = attr "a" })
      ∷ ("build@1", record { base_task = "build"; attrs = attr "b" })
      ∷ [];
  instance_ids = ("build", "build@0" ∷ "build@1" ∷ []) ∷ [];
}

tasks-expanded : expand_matrix_tasks tasks ≡ Matrix.ok expansion
unfolding expand_matrix_tasks collect_ids matrix_ids validate_task_matrix entry_ids
    validate_matrix_attrs validate_keys validate_values matrix_value_to_string is_blank
    is_canonical_ident ascii_uppercase join matrix_node_id expand_all expand_task expand_entries
    expand_depends_on get Map.insert is_whitespace decimal all_ident
tasks-expanded = refl

abbrev tasks_sorted : Map.IsSorted tasks
tasks_sorted = ((refl, tt), (tt, tt))

tasks_closed : (k d : String) → contains d (depends_on tasks k) ≡ true → has_task d tasks ≡ true
unfolding get
tasks_closed k d h = ground (arith, h, eqb_iff k "all", eqb_iff k "build", eqb_iff d "build")

expand_matrix_tasks-IsExpansion_example : IsExpansion tasks ("build" ∷ []) expansion
unfolding get
expand_matrix_tasks-IsExpansion_example =
    expand_matrix_tasks-IsExpansion tasks ("build" ∷ []) expansion tasks_sorted tasks_closed
      (λ d h. ground (arith, h, eqb_iff d "build")) tasks-expanded
