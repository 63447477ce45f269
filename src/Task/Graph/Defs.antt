-- ===== src/Task/Graph/Defs.antt =====
-- crates/nxr-task/src/graph.rs: the dependency graph of tasks. A task is read for `dependsOn` only.
use mathlib.Core.List.{reverse}
use nxr.Base.{
  ℕ, zero, suc, ◌+◌, Bool, true, false, List, [], ◌∷◌, ◌++◌, Option, none, some, String, length,
  if◌then◌else◌,
}
use nxr.Base.Order.{string_ord}
use nxr.Task.Schema.{Tasks}
use nxr.Base.Set
use nxr.Base.Set.{contains}
use nxr.Base.Map
use nxr.Base.Map.{get}

pub data GraphError : Type 0 where
  unknown_root : (root : String) → GraphError
  missing_dependency : (task dependency : String) → GraphError
  cycle : (path : List String) → GraphError

pub data Result {ℓ} (A : Type ℓ) : Type ℓ where
  ok : A → Result A
  err : GraphError → Result A

infixl 5 ◌>>=◌
abbrev pub ◌>>=◌ {ℓ κ} : {A : Type ℓ} {B : Type κ} → Result A → (A → Result B) → Result B
ok a >>= f = f a
err e >>= f = err e

pub record TaskGraph : Type 0 where
  pub deps : List (String × List String)

abbrev pub has_task : String → Tasks → Bool
has_task name tasks = elim (get name tasks) [ none ↦ false | some _ ↦ true ]

-- `BTreeSet` collected from a list.
unfoldable pub to_set : List String → List String
to_set [] = []
to_set (x ∷ xs) = Set.insert x (to_set xs)

-- The first dependency that no task defines.
unfoldable pub undefined_in : Tasks → List String → Option String
undefined_in tasks [] = none
undefined_in tasks (dep ∷ deps) =
    let rest = undefined_in tasks deps in if has_task dep tasks then rest else some dep

-- The pushes of a task's dependencies on the stack, whose top is first.
unfoldable pub push_deps : Tasks → String → List String → List String → Result (List String)
push_deps tasks name deps stack = elim (undefined_in tasks deps) [
  | none ↦ ok (reverse deps ++ stack)
  | some dep ↦ err (missing_dependency name dep)
]

-- One node of the worklist: a node that was reached before is passed over.
unfoldable pub expand :
    Tasks → String → List String → List String → Result (List String × List String)
expand tasks name stack reachable =
    if contains name reachable then ok (stack, reachable) else elim (get name tasks) [
      | none ↦ err (unknown_root name)
      | some task ↦ do
        stack' ← push_deps tasks name task.depends_on stack
        ok (stack', Set.insert name reachable)
    ]

unfoldable pub explore : ℕ → Tasks → List String → List String → Result (List String)
explore zero tasks stack reachable = ok reachable
explore (suc fuel) tasks [] reachable = ok reachable
explore (suc fuel) tasks (name ∷ stack) reachable =
    expand tasks name stack reachable >>= λ next. explore fuel tasks next.0 next.1

unfoldable pub count_deps : Tasks → ℕ
count_deps [] = 0
count_deps ((name, task) ∷ rest) = length task.depends_on + count_deps rest

-- A task is expanded once, so the pushes of a root are at most its own and one for each dependency.
unfoldable pub explore_roots : Tasks → List String → List String → Result (List String)
explore_roots tasks [] reachable = ok reachable
explore_roots tasks (root ∷ roots) reachable =
    explore (suc (suc (count_deps tasks))) tasks (root ∷ []) reachable >>= λ reached.
    explore_roots tasks roots reached

-- The sorted dependencies of every reachable task.
unfoldable pub dependency_row : Tasks → String → List String
dependency_row tasks name = elim (get name tasks) [ none ↦ [] | some task ↦ to_set task.depends_on ]

unfoldable pub graph_of : Tasks → List String → List (String × List String)
graph_of tasks [] = []
graph_of tasks (name ∷ names) = Map.insert name (dependency_row tasks name) (graph_of tasks names)

unfoldable pub unknown_in : Tasks → List String → Option String
unknown_in tasks [] = none
unknown_in tasks (root ∷ roots) =
    let rest = unknown_in tasks roots in if has_task root tasks then rest else some root

unfoldable pub is_empty : List String → Bool
is_empty [] = true
is_empty _ = false

unfoldable pub subgraph_union : Tasks → List String → Result TaskGraph
subgraph_union tasks roots =
    if is_empty roots then err (unknown_root "") else elim (unknown_in tasks roots) [
      | some root ↦ err (unknown_root root)
      | none ↦ do
        reachable ← explore_roots tasks roots []
        ok (record { deps = graph_of tasks reachable })
    ]

unfoldable pub from_rows : Tasks → Tasks → Result (List (String × List String))
from_rows tasks [] = ok []
from_rows tasks ((name, task) ∷ rest) = elim (undefined_in tasks task.depends_on) [
  | some dep ↦ err (missing_dependency name dep)
  | none ↦ from_rows tasks rest >>= λ rows. ok (Map.insert name (to_set task.depends_on) rows)
]

unfoldable pub from_tasks : Tasks → Result TaskGraph
from_tasks tasks = from_rows tasks tasks >>= λ rows. ok (record { deps = rows })

unfoldable pub node_ids : List (String × List String) → List String
node_ids [] = []
node_ids ((name, deps) ∷ rest) = name ∷ node_ids rest

unfoldable pub dependencies : TaskGraph → String → Option (List String)
dependencies graph id = get id graph.deps
