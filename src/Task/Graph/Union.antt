-- ===== src/Task/Graph/Union.antt =====
-- crates/nxr-task/src/graph.rs: what `subgraph_union` returns.
use nxr.Base.{
  suc, ◌≡◌, true, ◌||◌, List, [], ◌∷◌, none, String, arith, Bool-cases, Option-cases, inl, inr,
}
use nxr.Base.Order.{string_ord, eqb_iff}
use nxr.Base.Set.{contains}
use nxr.Base.Map
use nxr.Base.Map.{get}
use nxr.Task.Schema.{Tasks}
use nxr.Task.Graph.Defs.{
  ok, TaskGraph, has_task, count_deps, explore, explore_roots, graph_of, unknown_in, is_empty,
  subgraph_union, node_ids,
}
use nxr.Task.Graph.Expand.{depends_on, unread_le}
use nxr.Task.Graph.Rows.{
  IsGraph, get-graph_of, contains-node_ids, graph_of-IsGraph, dependency_row-contains,
}
use nxr.Task.Graph.Closed.{Reaching, explore-Reaching, bind-ok}
use nxr.Task.Rows.{children}

unknown_in-none :
    (tasks : Tasks) (roots : List String) (d : String)
    → unknown_in tasks roots ≡ none
    → contains d roots ≡ true
    → has_task d tasks ≡ true
unfolding unknown_in
unknown_in-none tasks [] d h c = cc
unknown_in-none tasks (e ∷ roots) d h c = ground (arith, eqb_iff d e, unknown_in-none tasks roots d)

module _ (tasks : Tasks) (so : Map.IsSorted tasks) (holds : String → Type 0)
    (inherits : (n d : String) → holds n → contains d (depends_on tasks n) ≡ true → holds d) where
  explore_roots-Reaching :
      (roots reachable result : List String)
      → ((n : String) → contains n roots ≡ true → has_task n tasks ≡ true)
      → ((n : String) → contains n roots ≡ true → holds n)
      → Reaching tasks holds [] reachable
      → explore_roots tasks roots reachable ≡ ok result
      → Reaching tasks holds [] result
        × ((n : String)
            → (contains n reachable || contains n roots) ≡ true
            → contains n result ≡ true)
  unfolding explore_roots
  explore_roots-Reaching [] reachable result k w v h =
      let e : result ≡ reachable = ground (arith, h) in rw e (v, λ n i. ground (arith, i))
  explore_roots-Reaching (root ∷ roots) reachable result k w v h =
      let (mid, first, rest) =
        bind-ok (explore (suc (suc (count_deps tasks))) tasks (root ∷ []) reachable)
          (explore_roots tasks roots) result h in
      let start : Reaching tasks holds (root ∷ []) reachable = record {
        sorted = v.sorted;
        closed = λ n d i j. ground (arith, v.closed n d i j);
        known = λ n i. elim (Bool-cases (contains n reachable)) [
          | inl c ↦ v.known n (ground (arith, c))
          | inr c ↦ k n (ground (arith, c, i))
        ];
        least = λ n i. elim (Bool-cases (contains n reachable)) [
          | inl c ↦ v.least n (ground (arith, c))
          | inr c ↦ w n (ground (arith, c, i))
        ];
      } in
      let (v', all) =
        explore-Reaching tasks so holds inherits (suc (suc (count_deps tasks))) (root ∷ [])
          reachable mid (ground (arith, unread_le reachable tasks)) start first in
      let (v'', more) =
        explore_roots-Reaching roots mid result (λ n c. k n (ground (arith, c)))
          (λ n c. w n (ground (arith, c))) v' rest in
      (v'', λ n i. more n (ground (arith, i, all n)))

pub subgraph_union-ok :
    (tasks : Tasks) (roots : List String) (graph : TaskGraph)
    → subgraph_union tasks roots ≡ ok graph
    → (unknown_in tasks roots ≡ none)
      × ((reachable : List String) × (explore_roots tasks roots [] ≡ ok reachable)
          × (graph ≡ record { deps = graph_of tasks reachable }))
unfolding subgraph_union
subgraph_union-ok tasks roots graph h = elim (Bool-cases (is_empty roots)) [
  | inl e ↦ absurd (ground (arith, h, e))
  | inr e ↦ elim (Option-cases (unknown_in tasks roots)) [
    | inr (root, u) ↦ absurd (ground (arith, h, e, u))
    | inl u ↦
        let (reachable, r, g) =
          bind-ok (explore_roots tasks roots [])
            (λ reachable. ok (record { deps = graph_of tasks reachable })) graph
            (ground (arith, h, e, u)) in
        (u, (reachable, r, ground (arith, g)))
  ]
]

-- The graph's nodes are the tasks that the roots depend on, with their dependencies as rows.
pub record IsClosed (tasks : Tasks) (roots : List String) (graph : TaskGraph)
    (holds : String → Type 0) : Type 0 where
  pub rooted : (n : String) → contains n roots ≡ true → contains n (node_ids graph.deps) ≡ true
  pub defined : (n : String) → contains n (node_ids graph.deps) ≡ true → has_task n tasks ≡ true
  pub least : (n : String) → contains n (node_ids graph.deps) ≡ true → holds n
  pub row :
      (n d : String)
      → contains n (node_ids graph.deps) ≡ true
      → contains d (children graph.deps n) ≡ contains d (depends_on tasks n)
  pub closed :
      (n d : String)
      → contains n (node_ids graph.deps) ≡ true
      → contains d (depends_on tasks n) ≡ true
      → contains d (node_ids graph.deps) ≡ true

-- The graph of `roots` is well formed and holds every root, every task that it holds is defined and has
-- its `depends_on` as its row, the row's tasks are in the graph too, and any predicate that holds of the
-- roots and passes from a task to its dependencies holds of every task of the graph.
pub subgraph_union-IsClosed :
    (tasks : Tasks) (roots : List String) (graph : TaskGraph) (holds : String → Type 0)
    → Map.IsSorted tasks
    → ((n d : String) → holds n → contains d (depends_on tasks n) ≡ true → holds d)
    → ((n : String) → contains n roots ≡ true → holds n)
    → subgraph_union tasks roots ≡ ok graph
    → IsGraph graph × IsClosed tasks roots graph holds
subgraph_union-IsClosed tasks roots graph holds so inherits w h =
    let (u, (reachable, r, e)) = subgraph_union-ok tasks roots graph h in
    let (v, all) =
      explore_roots-Reaching tasks so holds inherits roots [] reachable
        (λ n c. unknown_in-none tasks roots n u c) w
        (record { sorted = tt; closed = λ n d i j. cc; known = λ n i. cc; least = λ n i. cc }) r in
    let ids : (n : String)
        → contains n (node_ids (graph_of tasks reachable)) ≡ contains n reachable =
      λ n.
        ground
          (arith, contains-node_ids (graph_of tasks reachable) n, get-graph_of tasks reachable n) in
    rw e (
      graph_of-IsGraph tasks reachable,
      record {
        rooted = λ n c. ground (arith, ids n, all n, c);
        defined = λ n c. v.known n (ground (arith, ids n, c));
        least = λ n c. v.least n (ground (arith, ids n, c));
        row = λ n d c.
            ground
              (arith, c, ids n, get-graph_of tasks reachable n, dependency_row-contains tasks n d);
        closed = λ n d c j. ground (arith, ids n, ids d, c, j, v.closed n d);
      },
    )
