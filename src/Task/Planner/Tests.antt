-- ===== src/Task/Planner/Tests.antt =====
-- crates/nxr-task/src/graph.rs and planner.rs: a small graph, sorted, and the theorems at it.
use nxr.Base.{none, false, ◌≡◌, refl, true, List, [], ◌∷◌, String, arith}
use nxr.Base.Order.{string_ord, eqb_iff}
use nxr.Base.Set
use nxr.Base.Set.{contains}
use nxr.Base.Map
use nxr.Base.Map.{get}
use nxr.Task.Schema.{TaskDefinition, Tasks}
use nxr.Task.Graph.Defs.{
  ok, err, cycle, TaskGraph, node_ids, to_set, undefined_in, push_deps, expand, count_deps, explore,
  explore_roots, dependency_row, graph_of, unknown_in, is_empty, subgraph_union, dependencies,
}
use nxr.Task.Graph.Expand.{depends_on}
use nxr.Task.Graph.Rows.{IsGraph}
use nxr.Task.Graph.Union.{IsClosed, subgraph_union-IsClosed}
use nxr.Task.Planner.Defs.{
  init_tables, add_edge, add_edges, add_rows, zeros, settle_child, settle_children, kahn_loop,
  positives, back_to, first_path, dfs_cycle, search_from, find_cycle_path, topo_serial,
  plan_serial_union, plan_serial,
}
use nxr.Task.Planner.Serial.{Sequenced, topo_serial-Sequenced}
use nxr.Task.Planner.Complete.{topo_serial_complete}

abbrev task : List String → TaskDefinition
task deps = record {
  depends_on = deps;
  app = "";
  working_directory = none;
  hidden = false;
  category = none;
  aliases = [];
  interactive = false;
  paths = [];
  resources = none;
  matrix = none;
}

-- `all` is `check` and `build`, and `check` builds first; `other` is apart, and `loop` is its own end.
abbrev tasks : Tasks
tasks =
    ("all", task ("check" ∷ "build" ∷ []))
    ∷ ("build", task [])
    ∷ ("check", task ("build" ∷ []))
    ∷ ("loop", task ("pool" ∷ []))
    ∷ ("other", task [])
    ∷ ("pool", task ("loop" ∷ []))
    ∷ []

abbrev graph : TaskGraph
graph = record {
  deps = ("all", "build" ∷ "check" ∷ []) ∷ ("build", []) ∷ ("check", "build" ∷ []) ∷ [];
}

subgraph-all : subgraph_union tasks ("all" ∷ []) ≡ ok graph
unfolding subgraph_union is_empty unknown_in explore_roots explore expand push_deps undefined_in
    count_deps graph_of dependency_row to_set get Set.insert Map.insert
subgraph-all = refl

serial-all : topo_serial graph ≡ ok ("build" ∷ "check" ∷ "all" ∷ [])
unfolding topo_serial init_tables add_rows add_edges add_edge zeros kahn_loop settle_children
    settle_child node_ids get Set.insert Set.remove Map.insert
serial-all = refl

serial-loop : plan_serial tasks "loop" ≡ err (cycle ("loop" ∷ "pool" ∷ "loop" ∷ []))
unfolding plan_serial plan_serial_union subgraph_union is_empty unknown_in explore_roots explore
    expand push_deps undefined_in count_deps graph_of dependency_row to_set get Set.insert
    Map.insert topo_serial init_tables add_rows add_edges add_edge zeros kahn_loop settle_children
    settle_child node_ids Set.remove positives find_cycle_path search_from dfs_cycle first_path
    back_to dependencies
serial-loop = refl

abbrev plan_nodes : List String
plan_nodes = "all" ∷ "build" ∷ "check" ∷ []

in_plan_inherits :
    (n d : String)
    → contains n plan_nodes ≡ true
    → contains d (depends_on tasks n) ≡ true
    → contains d plan_nodes ≡ true
unfolding get
in_plan_inherits n d h c =
    ground (arith, h, c, eqb_iff n "all", eqb_iff n "build", eqb_iff n "check")

abbrev tasks_sorted : Map.IsSorted tasks
tasks_sorted = (
  (refl, (refl, (refl, (refl, (refl, tt))))),
  (
    (refl, (refl, (refl, (refl, tt)))),
    ((refl, (refl, (refl, tt))), ((refl, (refl, tt)), ((refl, tt), (tt, tt)))),
  ),
)

abbrev graph_sorted : IsGraph graph
graph_sorted = record {
  sorted = ((refl, (refl, tt)), ((refl, tt), (tt, tt)));
  sets = (((refl, tt), (tt, tt)), (tt, ((tt, tt), tt)));
}

abbrev order : List String
order = "build" ∷ "check" ∷ "all" ∷ []

order-Sequenced : Sequenced graph.deps [] order
order-Sequenced = (topo_serial-Sequenced graph order graph_sorted serial-all).0

subgraph_union-IsClosed_example :
    IsGraph graph × IsClosed tasks ("all" ∷ []) graph (λ n. contains n plan_nodes ≡ true)
subgraph_union-IsClosed_example =
    subgraph_union-IsClosed tasks ("all" ∷ []) graph (λ n. contains n plan_nodes ≡ true)
      tasks_sorted in_plan_inherits (λ n h. ground (arith, h)) subgraph-all

topo_serial-Sequenced_example :
    Sequenced graph.deps [] order
    × ((n : String) → contains n order ≡ contains n (node_ids graph.deps))
topo_serial-Sequenced_example = topo_serial-Sequenced graph order graph_sorted serial-all

topo_serial_complete_example : (found : List String) × (topo_serial graph ≡ ok found)
topo_serial_complete_example =
    topo_serial_complete graph order graph_sorted order-Sequenced
      (topo_serial-Sequenced graph order graph_sorted serial-all).1
