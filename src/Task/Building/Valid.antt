-- ===== src/Task/Building/Valid.antt =====
-- crates/nxr-task/src/plan_exec.rs: what a built plan is.
use nxr.Base.{ℕ, suc, ◌≡◌, refl, true, List, [], ◌∷◌, some, String, arith, Option-cases, inl, inr}
use nxr.Base.Order.{string_ord, eqb_iff, eqb_self}
use nxr.Base.Set.{contains}
use nxr.Base.Map
use nxr.Base.Map.{get}
use nxr.Task.Schema.{TaskDefinition, Tasks}
use nxr.Task.Matrix
use nxr.Task.Matrix.{
  MatrixExpansion, Attrs, Expanded, matrix_node_id, expand_entries, expand_task, expand_all,
  collect_ids, expand_matrix_tasks, expand_matrix_roots,
}
use nxr.Task.Matrix.Ids
use nxr.Task.Graph.Defs.{TaskGraph, has_task, dependencies, node_ids}
use nxr.Task.Plan.{PlanNode}
use nxr.Task.Building.{plan_node, plan_nodes}

-- The nodes of a plan with their dependencies.
abbrev pub rows_of : List PlanNode → List (String × List String)
rows_of [] = []
rows_of (node ∷ nodes) = (node.id, node.depends_on) ∷ rows_of nodes

entries-IsSorted :
    (name : String) (d : TaskDefinition) (m : Ids.Ids) (index : ℕ) (entries : List Attrs)
    (acc : Expanded)
    → Map.IsSorted acc.0
    → Map.IsSorted (expand_entries name d m index entries acc).0
unfolding expand_entries
entries-IsSorted name d m index [] acc s = s
entries-IsSorted name d m index (attrs ∷ entries) (tasks, instances) s =
    entries-IsSorted name d m (suc index) entries _
      (Map.insert-IsSorted (matrix_node_id name index) _ tasks s)

all-IsSorted :
    (tasks : Tasks) (m : Ids.Ids) (acc : Expanded)
    → Map.IsSorted acc.0
    → Map.IsSorted (expand_all tasks m acc).0
unfolding expand_all expand_task
all-IsSorted [] m acc s = s
all-IsSorted ((name, d) ∷ tasks) m acc s =
    all-IsSorted tasks m (expand_task name d m acc) (elim (Option-cases d.matrix) [
      | inl e ↦ rw (e, expand_task) (Map.insert-IsSorted name _ acc.0 s)
      | inr (matrix, e) ↦ rw (e, expand_task) (entries-IsSorted name d m 0 matrix.include acc s)
    ])

pub expansion-IsSorted :
    (tasks : Tasks) (x : MatrixExpansion)
    → expand_matrix_tasks tasks ≡ Matrix.ok x
    → Map.IsSorted x.tasks
unfolding expand_matrix_tasks
expansion-IsSorted tasks x h =
    let (m, i, h') =
      Ids.bind-ok (collect_ids tasks)
        (λ m. Matrix.ok (record {
          tasks = (expand_all tasks m ([], [])).0;
          instances = (expand_all tasks m ([], [])).1;
          instance_ids = m;
        }))
        x h in
    let same : x.tasks ≡ (expand_all tasks m ([], [])).0 = ground (arith, h') in
    rw same (all-IsSorted tasks m ([], []) tt)

-- Every row of the graph becomes a node.
pub rows_of-plan_nodes :
    (tasks : Tasks) (graph : TaskGraph) (m : List (String × List String))
    → Map.IsSorted m
    → ((n : String) → contains n (node_ids m) ≡ true → has_task n tasks ≡ true)
    → ((n : String) (row : List String) → get n m ≡ some row → get n graph.deps ≡ some row)
    → rows_of (plan_nodes tasks graph (node_ids m)) ≡ m
unfolding plan_nodes plan_node node_ids dependencies get
rows_of-plan_nodes tasks graph [] s k w = refl
rows_of-plan_nodes tasks graph ((n, row) ∷ m) s k w =
    let rest =
      rows_of-plan_nodes tasks graph m s.1 (λ j c. k j (ground (arith, c)))
        (λ j r g. w j r (ground (arith, g, eqb_iff j n, Map.Before-get n m s.0))) in
    ground (arith, rest, k n, eqb_self n, w n row)
