-- ===== src/Affected/Built.antt =====
-- crates/nxr-affected/src/graph.rs: who depends on whom in a built graph.
use nxr.Base.{
  ◌≡◌, refl, Bool, true, false, ◌&&◌, ◌||◌, List, [], ◌∷◌, Option, none, some, String, arith,
  Bool-cases, inl, inr,
}
use nxr.Base.Order.{string_ord, eqb, eqb_iff}
use nxr.Base.Set
use nxr.Base.Set.{contains}
use nxr.Base.Map
use nxr.Base.Map.{get}
use nxr.Task.Schema.{Tasks}
use nxr.Task.Rows.{Dependents, children, children-insert}
use nxr.Affected.Graph.{
  App, app, task, GraphNode, Nodes, node_key, add_dependent, add_dependencies, add_app, add_nodes,
  reverse_dependencies, add_apps, add_tasks, task_node, build_graph,
}
use nxr.Affected.Loop.{TaskChildren}

-- Whether a node names the node of that key as a dependency or as its app.
abbrev pub names_key : List String → String → Bool
names_key [] k = false
names_key (dep ∷ deps) k = eqb k (node_key task dep) || names_key deps k

abbrev pub names_app : Option String → String → Bool
names_app none k = false
names_app (some name) k = eqb k (node_key app name)

abbrev pub names : GraphNode → String → Bool
names node k = names_app node.app_name k || names_key node.depends_on k

abbrev pub node_names : Option GraphNode → String → Bool
node_names none k = false
node_names (some node) k = names node k

add_dependent-children :
    (key dep c k : String) (m : Dependents)
    → contains c (children (add_dependent key dep m) k)
      ≡ (contains c (children m k) || (eqb k dep && eqb c key))
unfolding add_dependent
add_dependent-children key dep c k m = ground (
  arith,
  children-insert dep k (Set.insert key (children m dep)) m,
  Set.contains-insert key c (children m dep),
  eqb_iff k dep,
  eqb_iff c key,
)

add_dependencies-children :
    (key c k : String) (deps : List String) (m : Dependents)
    → contains c (children (add_dependencies key deps m) k)
      ≡ (contains c (children m k) || (names_key deps k && eqb c key))
unfolding add_dependencies
add_dependencies-children key c k [] m = ground arith
add_dependencies-children key c k (dep ∷ deps) m = ground (
  arith,
  add_dependencies-children key c k deps (add_dependent key (node_key task dep) m),
  add_dependent-children key (node_key task dep) c k m,
)

add_app-children :
    (key c k : String) (name : Option String) (m : Dependents)
    → contains c (children (add_app key name m) k)
      ≡ (contains c (children m k) || (names_app name k && eqb c key))
unfolding add_app
add_app-children key c k none m = ground arith
add_app-children key c k (some name) m = add_dependent-children key (node_key app name) c k m

add_nodes-children :
    (c k : String) (nodes : Nodes) (m : Dependents)
    → Map.IsSorted nodes
    → contains c (children (add_nodes nodes m) k)
      ≡ (contains c (children m k) || node_names (get c nodes) k)
unfolding add_nodes get
add_nodes-children c k [] m s = ground arith
add_nodes-children c k ((key, node) ∷ nodes) m s =
    let deps = add_dependencies key node.depends_on m in
    ground (
      arith,
      add_nodes-children c k nodes (add_app key node.app_name deps) s.1,
      add_app-children key c k node.app_name deps,
      add_dependencies-children key c k node.depends_on m,
      eqb_iff c key,
      Map.Before-get key nodes s.0,
    )

-- In the reversed table, a node stands under just the keys that it names.
pub reverse_dependencies-names :
    (nodes : Nodes) (c k : String)
    → Map.IsSorted nodes
    → contains c (children (reverse_dependencies nodes) k) ≡ node_names (get c nodes) k
unfolding reverse_dependencies get
reverse_dependencies-names nodes c k s = ground (arith, add_nodes-children c k nodes [] s)

-- An app's node names nothing.
pub record IsNodes (nodes : Nodes) : Type 0 where
  pub sorted : Map.IsSorted nodes
  pub keyed :
      (c : String) (node : GraphNode) → get c nodes ≡ some node → c ≡ node_key node.kind node.name
  pub apps :
      (c k : String) (node : GraphNode)
      → get c nodes ≡ some node
      → names node k ≡ true
      → node.kind ≡ task

insert-IsNodes :
    (key : String) (node : GraphNode) (nodes : Nodes)
    → key ≡ node_key node.kind node.name
    → ((k : String) → names node k ≡ true → node.kind ≡ task)
    → IsNodes nodes
    → IsNodes (Map.insert key node nodes)
insert-IsNodes key node nodes named h v = record {
  sorted = Map.insert-IsSorted key node nodes v.sorted;
  keyed = λ c n g. elim (Bool-cases (eqb c key)) [
    | inl e ↦
        let same : n ≡ node = ground (arith, g, e, Map.get-insert key c node nodes) in
        let same_key : c ≡ key = ground (arith, e, eqb_iff c key) in rw (same, same_key) named
    | inr e ↦ v.keyed c n (ground (arith, g, e, Map.get-insert key c node nodes))
  ];
  apps = λ c k n g j. elim (Bool-cases (eqb c key)) [
    | inl e ↦
        let same : n ≡ node = ground (arith, g, e, Map.get-insert key c node nodes) in
        rw same (h k (ground (arith, j, same)))
    | inr e ↦ v.apps c k n (ground (arith, g, e, Map.get-insert key c node nodes)) j
  ];
}

add_apps-IsNodes :
    (apps : List App) (acc : Nodes × List (String × List String))
    → IsNodes acc.0
    → IsNodes (add_apps apps acc).0
unfolding add_apps
add_apps-IsNodes [] acc v = v
add_apps-IsNodes (a ∷ apps) (nodes, paths) v =
    add_apps-IsNodes apps _ (insert-IsNodes (node_key app a.name) _ nodes refl (λ k h. cc) v)

add_tasks-IsNodes :
    (paths : List (String × List String)) (tasks : Tasks) (nodes : Nodes)
    → IsNodes nodes
    → IsNodes (add_tasks paths tasks nodes)
unfolding add_tasks task_node
add_tasks-IsNodes paths [] nodes v = v
add_tasks-IsNodes paths ((name, d) ∷ tasks) nodes v =
    add_tasks-IsNodes paths tasks _
      (insert-IsNodes (node_key task name) _ nodes refl (λ k h. refl) v)

pub build_graph-IsNodes : (apps : List App) (tasks : Tasks) → IsNodes (build_graph apps tasks).nodes
unfolding build_graph get
build_graph-IsNodes apps tasks =
    add_tasks-IsNodes (add_apps apps ([], [])).1 tasks (add_apps apps ([], [])).0 (
      add_apps-IsNodes apps ([], [])
        (record { sorted = tt; keyed = λ c node g. cc; apps = λ c k node g h. cc }))

pub build_graph-TaskChildren :
    (apps : List App) (tasks : Tasks) → TaskChildren (build_graph apps tasks)
unfolding build_graph
build_graph-TaskChildren apps tasks k c node h g =
    let v = build_graph-IsNodes apps tasks in
    v.apps c k node g
      (ground (arith, h, g, reverse_dependencies-names (build_graph apps tasks).nodes c k v.sorted))
