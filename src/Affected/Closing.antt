-- ===== src/Affected/Closing.antt =====
-- crates/nxr-affected/src/analyze.rs: what the classification of a graph leaves marked.
use nxr.Base.{
  suc, ◌+◌, ◌≤◌, ◌≡◌, refl, true, false, ◌||◌, List, [], ◌∷◌, Option, none, some, String, arith,
  length, Option-cases, Bool-cases, List-cases, ◌⊎◌, inl, inr,
}
use nxr.Base.Order.{string_ord, eqb, eqb_iff}
use nxr.Base.Set.{contains}
use nxr.Base.Map
use nxr.Base.Map.{get}
use nxr.Task.Rows.{Dependents, children}
use nxr.Affected.Paths
use nxr.Affected.Paths.{
  Globs, PathRootError, is_global_invalidation_path, validate_path_roots, roots_may_overlap_changes,
}
use nxr.Affected.Graph.{NodeKind, GraphNode, Nodes, AffectedGraph}
use nxr.Affected.Marks.{
  NodeStatus, affected, unaffected, unknown, Marks, Status, is_marked, set_status, add_reason,
  push_global, mark_global_affected, classify_node, classify_path_hits, finalize_empty_roots,
  unaffected_all, any_global, no_marks,
}
use nxr.Affected.Analyze.{
  Spread, spread_loop, marked_keys, count_edges, propagate_dependencies, classify,
}
use nxr.Affected.Spread.{Spreading, passes, is_some, waiting, pending}
use nxr.Affected.Loop.{TaskChildren, spread_loop-Spreading}

contains-marked_keys :
    (k : String) (m : Status) → Map.IsSorted m → contains k (marked_keys m) ≡ is_marked (get k m)
unfolding marked_keys get
contains-marked_keys k [] s = refl
contains-marked_keys k ((j, affected) ∷ m) s =
    ground (arith, eqb_iff k j, contains-marked_keys k m s.1)
contains-marked_keys k ((j, unknown) ∷ m) s =
    ground (arith, eqb_iff k j, contains-marked_keys k m s.1)
contains-marked_keys k ((j, unaffected) ∷ m) s =
    ground (arith, eqb_iff k j, contains-marked_keys k m s.1, Map.Before-get j m s.0)

waiting_le : (enqueued row : List String) → waiting enqueued row ≤ length row
unfolding waiting
waiting_le enqueued [] = omega arith
waiting_le enqueued (c ∷ row) = ground (arith, waiting_le enqueued row)

pending_le : (enqueued : List String) (rows : Dependents) → pending enqueued rows ≤ count_edges rows
unfolding pending count_edges
pending_le enqueued [] = omega arith
pending_le enqueued ((k, row) ∷ rows) =
    omega (arith, waiting_le enqueued row, pending_le enqueued rows)

-- What depends on an affected node, or on a task that is unknown, is itself affected or unknown.
abbrev pub Closed : AffectedGraph → Status → Type 0
Closed graph status =
    (k c : String) (node : GraphNode)
    → get k graph.nodes ≡ some node
    → passes (get k status) node.kind ≡ true
    → contains c (children graph.dependents k) ≡ true
    → is_marked (get c status) ≡ true

passes-marked :
    (o : Option NodeStatus) (kind : NodeKind) → passes o kind ≡ true → is_marked o ≡ true
passes-marked none kind h = cc
passes-marked (some affected) kind h = refl
passes-marked (some unaffected) kind h = cc
passes-marked (some unknown) kind h = refl

pub propagate_dependencies-Closed :
    (graph : AffectedGraph) (m : Marks)
    → TaskChildren graph
    → Map.IsSorted m.status
    → Map.IsSorted (propagate_dependencies graph m).status
      × Closed graph (propagate_dependencies graph m).status
      × ((k : String)
          → is_some (get k m.status) ≡ true
          → is_some (get k (propagate_dependencies graph m).status) ≡ true)
unfolding propagate_dependencies
propagate_dependencies-Closed graph m kinds so =
    let keys = marked_keys m.status in
    let start : Spread = record { marks = m; queue = keys; enqueued = keys } in
    let fuel = suc (length keys + count_edges graph.dependents) in
    let v : Spreading graph [] start = record {
      sorted = so;
      listed = λ k h. ground (arith, h, contains-marked_keys k m.status so);
      marked = λ k h. ground (arith, h, contains-marked_keys k m.status so);
      queued = λ k h. h;
      settled = λ k c node e q g p h. absurd (ground (arith, e, q));
    } in
    let (last, empty, stays) =
      spread_loop-Spreading graph kinds fuel start (omega (arith, pending_le keys graph.dependents))
        v in
    let ended = spread_loop fuel graph start in
    (
      last.sorted,
      λ k c node g p h.
          last.settled k c node
            (last.listed k (passes-marked (get k ended.marks.status) node.kind p)) (rw empty refl) g
            p h,
      stays,
    )

abbrev Sorted : Marks → Type 0
Sorted m = Map.IsSorted m.status

push_global-status :
    (k : String) (paths : List String) (m : Marks) → (push_global k paths m).status ≡ m.status
unfolding push_global add_reason
push_global-status k [] m = refl
push_global-status k (p ∷ paths) m = elim (Bool-cases (is_global_invalidation_path p)) [
  | inl e ↦ rw (e, push_global) (push_global-status k paths _)
  | inr e ↦ rw (e, push_global) (push_global-status k paths m)
]

mark_global-Sorted :
    (nodes : Nodes) (changed : List String) (m : Marks)
    → Sorted m
    → Sorted (mark_global_affected nodes changed m)
unfolding mark_global_affected set_status
mark_global-Sorted [] changed m s = s
mark_global-Sorted ((k, node) ∷ nodes) changed m s =
    mark_global-Sorted nodes changed _
      (Map.insert-IsSorted k affected _ (rw (push_global-status k changed m) s))

validated-cases :
    (r : Paths.Result (Unit {0}))
    → ((u : Unit {0}) × (r ≡ Paths.ok u)) ⊎ ((e : PathRootError) × (r ≡ Paths.err e))
validated-cases (Paths.ok u) = inl (u, refl)
validated-cases (Paths.err e) = inr (e, refl)

classify_node-Sorted :
    (globs : Globs) (changed : List String) (k : String) (node : GraphNode) (m : Marks)
    → Sorted m
    → Sorted (classify_node globs changed k node m)
unfolding classify_node set_status add_reason
classify_node-Sorted globs changed k node m s =
    let ins = λ (st : NodeStatus). Map.insert-IsSorted k st m.status s in
    elim (validated-cases (validate_path_roots globs node.path_roots)) [
      | inr (e, r) ↦ rw (r, classify_node) (ins unknown)
      | inl (u, r) ↦ elim (List-cases node.path_roots) [
        | inl n ↦ rw (r, n, classify_node) s
        | inr (root, roots, n) ↦
            elim (Bool-cases (roots_may_overlap_changes (root ∷ roots) changed)) [
              | inl o ↦ rw (r, n, o, classify_node) (ins _)
              | inr o ↦ rw (r, n, o, classify_node) (ins unaffected)
            ]
      ]
    ]

path_hits-Sorted :
    (globs : Globs) (changed : List String) (nodes : Nodes) (m : Marks)
    → Sorted m
    → Sorted (classify_path_hits globs changed nodes m)
unfolding classify_path_hits
path_hits-Sorted globs changed [] m s = s
path_hits-Sorted globs changed ((k, node) ∷ nodes) m s =
    path_hits-Sorted globs changed nodes _ (classify_node-Sorted globs changed k node m s)

finalize-Sorted : (nodes : Nodes) (m : Marks) → Sorted m → Sorted (finalize_empty_roots nodes m)
unfolding finalize_empty_roots set_status add_reason
finalize-Sorted [] m s = s
finalize-Sorted ((k, node) ∷ nodes) m s =
    finalize-Sorted nodes _ (elim (Option-cases (get k m.status)) [
      | inr (st, e) ↦ rw e s
      | inl e ↦ elim (List-cases node.path_roots) [
        | inl n ↦ rw (e, n) (Map.insert-IsSorted k unknown m.status s)
        | inr (root, roots, n) ↦ rw (e, n) (Map.insert-IsSorted k unaffected m.status s)
      ]
    ])

pub unaffected_all-unmarked :
    (k : String) (nodes : Nodes) (m : Marks)
    → is_marked (get k m.status) ≡ false
    → is_marked (get k (unaffected_all nodes m).status) ≡ false
unfolding unaffected_all set_status
unaffected_all-unmarked k [] m h = h
unaffected_all-unmarked k ((j, node) ∷ nodes) m h =
    unaffected_all-unmarked k nodes _ (ground (arith, h, Map.get-insert j k unaffected m.status))

-- Every node of a list has a status.
abbrev pub Total : Nodes → Status → Type 0
Total nodes status =
    (k : String) (node : GraphNode) → get k nodes ≡ some node → is_some (get k status) ≡ true

mark_global-stays :
    (k : String) (nodes : Nodes) (changed : List String) (m : Marks)
    → is_some (get k m.status) ≡ true
    → is_some (get k (mark_global_affected nodes changed m).status) ≡ true
unfolding mark_global_affected set_status
mark_global-stays k [] changed m h = h
mark_global-stays k ((j, node) ∷ nodes) changed m h = mark_global-stays k nodes changed _ (
    ground (
      arith,
      h,
      push_global-status j changed m,
      Map.get-insert j k affected (push_global j changed m).status,
    ))

mark_global-Total :
    (nodes : Nodes) (changed : List String) (m : Marks)
    → Total nodes (mark_global_affected nodes changed m).status
unfolding mark_global_affected set_status get
mark_global-Total [] changed m k node g = cc
mark_global-Total ((j, n) ∷ nodes) changed m k node g = elim (Bool-cases (eqb k j)) [
  | inl e ↦
      mark_global-stays k nodes changed _
        (ground (arith, e, Map.get-insert j k affected (push_global j changed m).status))
  | inr e ↦ mark_global-Total nodes changed _ k node (ground (arith, g, e))
]

finalize_one-stays :
    (k j : String) (node : GraphNode) (m : Marks)
    → (is_some (get k m.status) || eqb k j) ≡ true
    → is_some (get k (finalize_empty_roots ((j, node) ∷ []) m).status) ≡ true
unfolding finalize_empty_roots set_status add_reason
finalize_one-stays k j node m h = elim (Option-cases (get j m.status)) [
  | inr (st, e) ↦ rw (e, finalize_empty_roots) (ground (arith, h, e, eqb_iff k j))
  | inl e ↦ elim (List-cases node.path_roots) [
    | inl n ↦
        rw (e, n, finalize_empty_roots) (ground (arith, h, Map.get-insert j k unknown m.status))
    | inr (root, roots, n) ↦
        rw (e, n, finalize_empty_roots) (ground (arith, h, Map.get-insert j k unaffected m.status))
  ]
]

finalize-stays :
    (k : String) (nodes : Nodes) (m : Marks)
    → is_some (get k m.status) ≡ true
    → is_some (get k (finalize_empty_roots nodes m).status) ≡ true
unfolding finalize_empty_roots
finalize-stays k [] m h = h
finalize-stays k ((j, node) ∷ nodes) m h =
    finalize-stays k nodes _ (finalize_one-stays k j node m (ground (arith, h)))

finalize-Total : (nodes : Nodes) (m : Marks) → Total nodes (finalize_empty_roots nodes m).status
unfolding finalize_empty_roots get
finalize-Total [] m k node g = cc
finalize-Total ((j, n) ∷ nodes) m k node g = elim (Bool-cases (eqb k j)) [
  | inl e ↦ finalize-stays k nodes _ (finalize_one-stays k j n m (ground (arith, e)))
  | inr e ↦ finalize-Total nodes _ k node (ground (arith, g, e))
]

unaffected_all-stays :
    (k : String) (nodes : Nodes) (m : Marks)
    → is_some (get k m.status) ≡ true
    → is_some (get k (unaffected_all nodes m).status) ≡ true
unfolding unaffected_all set_status
unaffected_all-stays k [] m h = h
unaffected_all-stays k ((j, node) ∷ nodes) m h =
    unaffected_all-stays k nodes _ (ground (arith, h, Map.get-insert j k unaffected m.status))

pub unaffected_all-Total : (nodes : Nodes) (m : Marks) → Total nodes (unaffected_all nodes m).status
unfolding unaffected_all set_status get
unaffected_all-Total [] m k node g = cc
unaffected_all-Total ((j, n) ∷ nodes) m k node g = elim (Bool-cases (eqb k j)) [
  | inl e ↦
      unaffected_all-stays k nodes _ (ground (arith, e, Map.get-insert j k unaffected m.status))
  | inr e ↦ unaffected_all-Total nodes _ k node (ground (arith, g, e))
]

-- However paths are changed, what depends on an affected node, or on a task of unknown status, is itself
-- affected or unknown in the end, where only tasks depend on anything.
pub classify-Closed :
    (globs : Globs) (graph : AffectedGraph) (changed : List String)
    → TaskChildren graph
    → Closed graph (classify globs graph changed).status
unfolding classify get
classify-Closed globs graph [] kinds = λ k c node g p h.
    let none_marked = unaffected_all-unmarked k graph.nodes no_marks refl in
    absurd (ground (arith, none_marked, passes-marked _ node.kind p))
classify-Closed globs graph (p ∷ changed) kinds = elim (Bool-cases (any_global (p ∷ changed))) [
  | inl e ↦
      rw (e, classify)
        ((propagate_dependencies-Closed graph _ kinds
          (mark_global-Sorted graph.nodes (p ∷ changed) no_marks tt)).1)
  | inr e ↦
      rw (e, classify)
        ((propagate_dependencies-Closed graph _ kinds (
          finalize-Sorted graph.nodes _
            (propagate_dependencies-Closed graph _ kinds
              (path_hits-Sorted globs (p ∷ changed) graph.nodes no_marks tt)).0)).1)
]

pub classify-Total :
    (globs : Globs) (graph : AffectedGraph) (changed : List String)
    → TaskChildren graph
    → Total graph.nodes (classify globs graph changed).status
unfolding classify
classify-Total globs graph [] kinds = unaffected_all-Total graph.nodes no_marks
classify-Total globs graph (p ∷ changed) kinds = elim (Bool-cases (any_global (p ∷ changed))) [
  | inl e ↦
      rw (e, classify)
        (λ k node g.
          (propagate_dependencies-Closed graph _ kinds
              (mark_global-Sorted graph.nodes (p ∷ changed) no_marks tt)).2
            k (mark_global-Total graph.nodes (p ∷ changed) no_marks k node g))
  | inr e ↦
      rw (e, classify)
        (λ k node g.
          (propagate_dependencies-Closed graph _ kinds (
              finalize-Sorted graph.nodes _
                (propagate_dependencies-Closed graph _ kinds
                  (path_hits-Sorted globs (p ∷ changed) graph.nodes no_marks tt)).0)).2
            k (finalize-Total graph.nodes _ k node g))
]
