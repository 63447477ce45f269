-- ===== src/Task/Planner/Defs.antt =====
-- crates/nxr-task/src/planner.rs: Kahn's sort with the smallest ready id first, and the search for a
-- cycle where it does not reach every node.
use mathlib.Core.List.{reverse}
use nxr.Base.{
  ℕ, zero, suc, ◌+◌, ◌-◌, List, [], ◌∷◌, get_or, filter, Option, none, some, String, length, ltb,
  ◌==◌, if◌then◌else◌,
}
use nxr.Base.Order.{string_ord, eqb}
use nxr.Base.Set
use nxr.Base.Set.{contains}
use nxr.Base.Map
use nxr.Base.Map.{get}
use nxr.Task.Rows.{children}
use nxr.Task.Schema.{Tasks}
use nxr.Task.Graph.Defs.{
  cycle, Result, ok, err, ◌>>=◌, TaskGraph, node_ids, dependencies, subgraph_union,
}

-- The tables of the sort.
pub record Tables : Type 0 where
  pub dependents : List (String × List String)
  pub indegree : List (String × ℕ)

unfoldable pub init_tables : List String → Tables
init_tables [] = record { dependents = []; indegree = [] }
init_tables (id ∷ ids) =
    let t = init_tables ids in
    record { dependents = Map.insert id [] t.dependents; indegree = Map.insert id 0 t.indegree }

-- One edge: the dependent's count goes up, and it joins the row of the dependency.
unfoldable pub add_edge : String → Tables → String → Tables
add_edge dependent t dep = record {
  dependents = Map.insert dep (Set.insert dependent (children t.dependents dep)) t.dependents;
  indegree = elim (get dependent t.indegree) [
    | none ↦ t.indegree
    | some n ↦ Map.insert dependent (n + 1) t.indegree
  ];
}

unfoldable pub add_edges : String → Tables → List String → Tables
add_edges dependent t [] = t
add_edges dependent t (dep ∷ deps) = add_edges dependent (add_edge dependent t dep) deps

unfoldable pub add_rows : Tables → List (String × List String) → Tables
add_rows t [] = t
add_rows t ((dependent, deps) ∷ rest) = add_rows (add_edges dependent t deps) rest

unfoldable pub zeros : List (String × ℕ) → List String
zeros [] = []
zeros ((id, deg) ∷ rest) = let others = zeros rest in if deg == 0 then id ∷ others else others

-- The counts and the ready set that the sort changes.
pub record Kahn : Type 0 where
  pub counts : List (String × ℕ)
  pub ready : List String

-- `*deg -= 1`; a child always has a positive count.
unfoldable pub settle_child : Kahn → String → Kahn
settle_child k child = elim (get child k.counts) [
  | none ↦ k
  | some deg ↦ record {
    counts = Map.insert child (deg - 1) k.counts;
    ready = if deg - 1 == 0 then Set.insert child k.ready else k.ready;
  }
]

unfoldable pub settle_children : Kahn → List String → Kahn
settle_children k [] = k
settle_children k (child ∷ children) = settle_children (settle_child k child) children

-- The ready set's first element is its smallest. The order is built with its end first.
unfoldable pub kahn_loop : ℕ → List (String × List String) → Kahn → List String → List String × Kahn
kahn_loop zero dependents k done = (done, k)
kahn_loop (suc fuel) dependents k done = elim k.ready [
  | [] ↦ (done, k)
  | id ∷ rest ↦
      kahn_loop fuel dependents
        (settle_children (record { counts = k.counts; ready = Set.remove id k.ready })
          (children dependents id))
        (id ∷ done)
]

unfoldable pub positives : List (String × ℕ) → List String
positives [] = []
positives ((id, deg) ∷ rest) =
    let others = positives rest in if ltb 0 deg then id ∷ others else others

-- The nodes of the stack from the first that is `node`, the stack's top being first.
unfoldable pub back_to : String → List String → List String
back_to node [] = []
back_to node (x ∷ xs) = let rest = back_to node xs in if eqb x node then x ∷ [] else x ∷ rest

unfoldable pub first_path : (String → Option (List String)) → List String → Option (List String)
first_path search [] = none
first_path search (dep ∷ deps) = elim (search dep) [
  | some path ↦ some path
  | none ↦ first_path search deps
]

-- Depth-first search along `dependsOn`. `visiting` and `stack` are as they were when a call returns
-- without a path, so they are passed down only. `stack` has its top first.
unfoldable pub dfs_cycle :
    ℕ → TaskGraph → List String → String → List String → List String → Option (List String)
dfs_cycle zero graph remaining node visiting stack = none
dfs_cycle (suc fuel) graph remaining node visiting stack =
    let search = λ (dep : String).
      dfs_cycle fuel graph remaining dep (Set.insert node visiting) (node ∷ stack) in
    let below : Option (List String) = elim (dependencies graph node) [
      | none ↦ none
      | some deps ↦ first_path search (filter (λ dep. contains dep remaining) deps)
    ] in
    if contains node remaining
    then if contains node visiting then some (reverse (node ∷ back_to node stack)) else below
    else none

unfoldable pub search_from : TaskGraph → List String → List String → Option (List String)
search_from graph remaining [] = none
search_from graph remaining (start ∷ starts) =
    elim (dfs_cycle (suc (suc (length remaining))) graph remaining start [] []) [
      | some path ↦ some path
      | none ↦ search_from graph remaining starts
    ]

-- Without a path the remaining nodes themselves are reported.
unfoldable pub find_cycle_path : TaskGraph → List String → List String
find_cycle_path graph remaining = get_or (search_from graph remaining remaining) remaining

unfoldable pub topo_serial : TaskGraph → Result (List String)
topo_serial graph =
    let t = add_rows (init_tables (node_ids graph.deps)) graph.deps in
    let start : Kahn = record { counts = t.indegree; ready = zeros t.indegree } in
    let ended = kahn_loop (suc (length graph.deps)) t.dependents start [] in
    if length ended.0 == length graph.deps
    then ok (reverse ended.0)
    else err (cycle (find_cycle_path graph (positives ended.1.counts)))

unfoldable pub plan_serial_union : Tasks → List String → Result (List String)
plan_serial_union tasks roots = subgraph_union tasks roots >>= topo_serial

unfoldable pub plan_serial : Tasks → String → Result (List String)
plan_serial tasks root = plan_serial_union tasks (root ∷ [])
