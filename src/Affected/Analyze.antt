-- ===== src/Affected/Analyze.antt =====
-- crates/nxr-affected/src/analyze.rs: how the marks spread along the graph, and the classification of its nodes.
use nxr.Base.{
  ℕ, zero, suc, ◌+◌, List, [], ◌∷◌, ◌++◌, none, some, String, if◌then◌else◌, get_or, length,
}
use nxr.Base.Order.{string_ord}
use nxr.Base.Set
use nxr.Base.Set.{contains}
use nxr.Base.Map.{get}
use nxr.Task.Rows.{Dependents, children}
use nxr.Affected.Paths.{Globs}
use nxr.Affected.Graph.{NodeKind, app, task, GraphNode, AffectedGraph}
use nxr.Affected.Marks.{
  AffectedReason, Marks, NodeStatus, Status, add_reason, affected, any_global, by_app,
  classify_path_hits, dependency, finalize_empty_roots, is_marked, mark_global_affected, no_marks,
  set_status, unaffected, unaffected_all, unknown, unknown_dependency,
}

unfoldable pub dependency_reason : NodeKind → String → AffectedReason
dependency_reason app name = by_app name
dependency_reason task name = dependency name

-- The loop's state: the marks, the queue, and the keys that were ever queued.
pub record Spread : Type 0 where
  pub marks : Marks
  pub queue : List String
  pub enqueued : List String

-- `if enqueued.insert(child) { queue.push_back(child) }`.
unfoldable pub enqueue : String → Spread → Spread
enqueue key s =
    if contains key s.enqueued
    then s
    else record s { queue = s.queue ++ (key ∷ []); enqueued = Set.insert key s.enqueued }

unfoldable pub mark_child : String → NodeStatus → Spread → Spread
mark_child key status s = enqueue key (record s { marks = set_status key status s.marks })

abbrev pub explain : String → AffectedReason → Spread → Spread
explain key reason s = record s { marks = add_reason key reason s.marks }

unfoldable pub reach_affected : GraphNode → String → Spread → Spread
reach_affected source key s =
    let told = explain key (dependency_reason source.kind source.name) s in
    elim (get key s.marks.status) [
      | some affected ↦ told
      | some unaffected ↦ mark_child key affected told
      | some unknown ↦ mark_child key affected told
      | none ↦ mark_child key affected told
    ]

unfoldable pub reach_unknown : GraphNode → String → Spread → Spread
reach_unknown source key s =
    let told = explain key (unknown_dependency source.name) s in
    elim source.kind [
      | app ↦ s
      | task ↦ elim (get key s.marks.status) [
        | some affected ↦ s
        | some unknown ↦ told
        | some unaffected ↦ mark_child key unknown told
        | none ↦ mark_child key unknown told
      ]
    ]

unfoldable pub reach : NodeStatus → GraphNode → String → Spread → Spread
reach affected source key s = reach_affected source key s
reach unknown source key s = reach_unknown source key s
reach unaffected source key s = s

unfoldable pub reach_all : NodeStatus → GraphNode → List String → Spread → Spread
reach_all status source [] s = s
reach_all status source (key ∷ keys) s = reach_all status source keys (reach status source key s)

-- A source that is no node, or without dependents, is passed over.
unfoldable pub spread_from : AffectedGraph → String → Spread → Spread
spread_from graph key s = elim (get key graph.nodes) [
  | none ↦ s
  | some source ↦
      reach_all (get_or (get key s.marks.status) unknown) source (children graph.dependents key) s
]

unfoldable pub spread_loop : ℕ → AffectedGraph → Spread → Spread
spread_loop zero graph s = s
spread_loop (suc fuel) graph s = elim s.queue [
  | [] ↦ s
  | key ∷ queue ↦ spread_loop fuel graph (spread_from graph key (record s { queue = queue }))
]

unfoldable pub marked_keys : Status → List String
marked_keys [] = []
marked_keys ((key, status) ∷ rest) =
    let keys = marked_keys rest in if is_marked (some status) then key ∷ keys else keys

unfoldable pub count_edges : Dependents → ℕ
count_edges [] = 0
count_edges ((key, row) ∷ rows) = length row + count_edges rows

-- A key is queued once, so the keys queued at first and the edges bound the rounds.
unfoldable pub propagate_dependencies : AffectedGraph → Marks → Marks
propagate_dependencies graph m =
    let keys = marked_keys m.status in
    (spread_loop (suc (length keys + count_edges graph.dependents)) graph
      (record { marks = m; queue = keys; enqueued = keys })).marks

-- The marks that `analyze` collects its result from.
unfoldable pub classify : Globs → AffectedGraph → List String → Marks
classify globs graph [] = unaffected_all graph.nodes no_marks
classify globs graph (p ∷ changed) =
    if any_global (p ∷ changed)
    then propagate_dependencies graph (mark_global_affected graph.nodes (p ∷ changed) no_marks)
    else propagate_dependencies graph (
        finalize_empty_roots graph.nodes (
          propagate_dependencies graph
            (classify_path_hits globs (p ∷ changed) graph.nodes no_marks)))
