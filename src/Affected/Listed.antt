-- ===== src/Affected/Listed.antt =====
-- crates/nxr-affected/src/analyze.rs: which tasks an analysis lists.
use nxr.Base.{
  ◌≡◌, refl, Bool, true, ◌&&◌, ◌||◌, List, [], ◌∷◌, Option, none, some, String, arith, Bool-cases,
  inl, inr, get_or,
}
use nxr.Base.Order.{string_ord, eqb, eqb_iff, eqb_self}
use nxr.Base.Set.{contains}
use nxr.Base.Map
use nxr.Base.Map.{get}
use nxr.Task.Schema.{Tasks, TaskDefinition}
use nxr.Task.Rows.{children}
use nxr.Affected.Prefix.{eqb-node_key}
use nxr.Affected.Paths.{Globs}
use nxr.Affected.Graph.{
  App, NodeKind, app, task, GraphNode, Nodes, node_key, add_apps, add_tasks, task_node, build_graph,
}
use nxr.Affected.Marks.{NodeStatus, affected, unaffected, unknown, Status, is_marked}
use nxr.Affected.Analyze.{classify}
use nxr.Affected.Results.{
  include_in_lists, same_kind, listed, place, sort, collect_results, analyze,
}
use nxr.Affected.Spread.{passes, is_some}
use nxr.Affected.Closing.{classify-Closed, classify-Total}
use nxr.Affected.Built.{
  names_key, build_graph-IsNodes, build_graph-TaskChildren, reverse_dependencies-names,
}

contains-place :
    (n x : String) (xs : List String) → contains n (place x xs) ≡ (eqb n x || contains n xs)
unfolding place
contains-place n x [] = ground arith
contains-place n x (y ∷ ys) = ground (arith, contains-place n x ys)

contains-sort : (n : String) (xs : List String) → contains n (sort xs) ≡ contains n xs
unfolding sort
contains-sort n [] = refl
contains-sort n (x ∷ xs) = ground (arith, contains-place n x (sort xs), contains-sort n xs)

-- A listed name is that of a node with an included status.
listed-out :
    (kind : NodeKind) (n : String) (status : Status) (strict : Bool) (nodes : Nodes)
    → Map.IsSorted nodes
    → contains n (listed kind status strict nodes) ≡ true
    → (k : String) × (node : GraphNode) × (get k nodes ≡ some node)
      × (same_kind node.kind kind ≡ true)
      × (node.name ≡ n)
      × (include_in_lists (get_or (get k status) unknown) strict ≡ true)
unfolding listed get
listed-out kind n status strict [] s h = cc
listed-out kind n status strict ((key, node) ∷ nodes) s h =
    elim (Bool-cases (
      same_kind node.kind kind
      && include_in_lists (get_or (get key status) unknown) strict
      && eqb n node.name)) [
        | inl e ↦ (
          key,
          node,
          ground (arith, eqb_self key),
          ground (arith, e),
          ground (arith, e, eqb_iff n node.name),
          ground (arith, e),
        )
        | inr e ↦
            let (k, other, g, a, b, c) =
              listed-out kind n status strict nodes s.1 (ground (arith, e, h)) in
            (k, other, ground (arith, g, eqb_iff k key, Map.Before-get key nodes s.0), a, b, c)
      ]

listed-in :
    (kind : NodeKind) (k : String) (node : GraphNode) (status : Status) (strict : Bool)
    (nodes : Nodes)
    → get k nodes ≡ some node
    → same_kind node.kind kind ≡ true
    → include_in_lists (get_or (get k status) unknown) strict ≡ true
    → contains node.name (listed kind status strict nodes) ≡ true
unfolding listed get
listed-in kind k node status strict [] g a b = cc
listed-in kind k node status strict ((key, other) ∷ nodes) g a b = elim (Bool-cases (eqb k key)) [
  | inl e ↦
      let same : other ≡ node = ground (arith, g, e) in
      let same_key : k ≡ key = ground (arith, e, eqb_iff k key) in
      ground (arith, a, b, same, same_key, eqb_self node.name)
  | inr e ↦ ground (arith, listed-in kind k node status strict nodes (ground (arith, g, e)) a b)
]

add_tasks-get :
    (paths : List (String × List String)) (tasks : Tasks) (nodes : Nodes) (n : String)
    → Map.IsSorted tasks
    → get (node_key task n) (add_tasks paths tasks nodes) ≡ (elim (get n tasks) [
      | none ↦ get (node_key task n) nodes
      | some d ↦ some (task_node paths n d)
    ])
unfolding add_tasks get
add_tasks-get paths [] nodes n s = refl
add_tasks-get paths ((m, d) ∷ tasks) nodes n s = elim (Bool-cases (eqb n m)) [
  | inl e ↦
      let same : n ≡ m = ground (arith, e, eqb_iff n m) in
      ground (
        arith,
        e,
        same,
        add_tasks-get paths tasks (Map.insert (node_key task m) (task_node paths m d) nodes) n s.1,
        Map.Before-get m tasks s.0,
        eqb-node_key n m,
        Map.get-insert (node_key task m) (node_key task n) (task_node paths m d) nodes,
      )
  | inr e ↦ ground (
    arith,
    e,
    add_tasks-get paths tasks (Map.insert (node_key task m) (task_node paths m d) nodes) n s.1,
    eqb-node_key n m,
    Map.get-insert (node_key task m) (node_key task n) (task_node paths m d) nodes,
  )
]

named_dependency :
    (dep : String) (deps : List String)
    → contains dep deps ≡ true
    → names_key deps (node_key task dep) ≡ true
named_dependency dep [] h = cc
named_dependency dep (e ∷ deps) h =
    ground (arith, h, eqb_iff dep e, eqb-node_key dep e, named_dependency dep deps)

included-marked :
    (o : Option NodeStatus)
    → is_some o ≡ true
    → include_in_lists (get_or o unknown) true ≡ true
    → passes o task ≡ true
unfolding include_in_lists
included-marked none p h = cc
included-marked (some affected) p h = refl
included-marked (some unaffected) p h = cc
included-marked (some unknown) p h = refl

marked-included :
    (o : Option NodeStatus) → is_marked o ≡ true → include_in_lists (get_or o unknown) true ≡ true
unfolding include_in_lists
marked-included none h = cc
marked-included (some affected) h = refl
marked-included (some unaffected) h = cc
marked-included (some unknown) h = refl

same_kind-task : (kind : NodeKind) → same_kind kind task ≡ true → kind ≡ task
same_kind-task app h = cc
same_kind-task task h = refl

module _ (apps : List App) (tasks : Tasks) (s : Map.IsSorted tasks) where
  task_found :
      (n : String) (d : TaskDefinition)
      → get n tasks ≡ some d
      → get (node_key task n) (build_graph apps tasks).nodes
        ≡ some (task_node (add_apps apps ([], [])).1 n d)
  unfolding build_graph
  task_found n d g =
      ground
        (arith, g, add_tasks-get (add_apps apps ([], [])).1 tasks (add_apps apps ([], [])).0 n s)

  dependent_found :
      (n dep : String) (d : TaskDefinition)
      → get n tasks ≡ some d
      → contains dep d.depends_on ≡ true
      → contains
          (node_key task n)
          (children (build_graph apps tasks).dependents (node_key task dep))
        ≡ true
  unfolding build_graph task_node
  dependent_found n dep d g h =
      let graph = build_graph apps tasks in
      let named = named_dependency dep d.depends_on h in
      ground (
        arith,
        task_found n d g,
        named,
        reverse_dependencies-names graph.nodes (node_key task n) (node_key task dep)
            (build_graph-IsNodes apps tasks).sorted,
      )

-- In a strict analysis of the graph of some apps and declared tasks, whose map is sorted, a task is
-- listed whenever one of the tasks that it depends on is, whatever paths are changed and whatever the
-- globs match.
pub analyze-Closed :
    (globs : Globs) (apps : List App) (tasks : Tasks) (changed : List String)
    (flake system : String) (n dep : String) (d : TaskDefinition)
    → Map.IsSorted tasks
    → get n tasks ≡ some d
    → contains dep d.depends_on ≡ true
    → contains dep (analyze globs (build_graph apps tasks) changed flake system true).tasks ≡ true
    → contains n (analyze globs (build_graph apps tasks) changed flake system true).tasks ≡ true
unfolding analyze collect_results task_node
analyze-Closed globs apps tasks changed flake system n dep d s g i h =
    let graph = build_graph apps tasks in
    let kinds = build_graph-TaskChildren apps tasks in
    let status = (classify globs graph changed).status in
    let v = build_graph-IsNodes apps tasks in
    let (k, node, found, kind, named, included) =
      listed-out task dep status true graph.nodes v.sorted
        (ground (arith, h, contains-sort dep (listed task status true graph.nodes))) in
    let is_task = same_kind-task node.kind kind in
    let passing =
      included-marked (get k status) (classify-Total globs graph changed kinds k node found)
        included in
    let key : k ≡ node_key task dep = ground (arith, v.keyed k node found, is_task, named) in
    let child : contains (node_key task n) (children graph.dependents k) ≡ true =
      rw key (dependent_found apps tasks s n dep d g i) in
    let marked =
      classify-Closed globs graph changed kinds k (node_key task n) node found (rw is_task passing)
        child in
    ground (
      arith,
      contains-sort n (listed task status true graph.nodes),
      listed-in task (node_key task n) (task_node (add_apps apps ([], [])).1 n d) status true
          graph.nodes (task_found apps tasks s n d g) refl
          (marked-included (get (node_key task n) status) marked),
    )
