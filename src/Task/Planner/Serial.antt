-- ===== src/Task/Planner/Serial.antt =====
-- crates/nxr-task/src/planner.rs: what the serial order is.
use mathlib.Core.List.{reverse, reverse_aux}
use nxr.Base.{
  suc, ◌≡◌, refl, true, false, ◌||◌, List, [], ◌∷◌, String, arith, length, ◌==◌, Bool-cases, inl,
  inr,
}
use nxr.Base.Order.{string_ord}
use nxr.Base.Set
use nxr.Base.Set.{contains}
use nxr.Task.Rows.{Dependents, children}
use nxr.Task.Graph.Defs.{ok, TaskGraph, node_ids}
use nxr.Task.Graph.Rows.{IsGraph}
use nxr.Task.Planner.Defs.{Tables, init_tables, add_rows, zeros, Kahn, kahn_loop, topo_serial}
use nxr.Task.Planner.Missing.{missing-nil}
use nxr.Task.Planner.Kahn.{Topo, Topo-Distinct, Sorting, kahn_loop-Sorting}
use nxr.Task.Planner.Tables.{
  Counted, init_tables-children, init_tables-Counted, add_rows-children, add_rows-Counted,
  zeros-get,
}

-- Reading `order` after the nodes of `earlier`, every dependency of a node has been read before it, and
-- no node is read twice.
abbrev pub Sequenced : List (String × List String) → List String → List String → Type 0
Sequenced deps earlier [] = Unit
Sequenced deps earlier (n ∷ later) =
    ((d : String) → contains d (children deps n) ≡ true → contains d earlier ≡ true)
    × (contains n earlier ≡ false)
    × Sequenced deps (n ∷ earlier) later

-- The tables and the ready set that the loop starts with.
abbrev pub tables_of : TaskGraph → Tables
tables_of graph = add_rows (init_tables (node_ids graph.deps)) graph.deps

abbrev pub start_of : TaskGraph → Kahn
start_of graph = record {
  counts = (tables_of graph).indegree;
  ready = zeros (tables_of graph).indegree;
}

abbrev pub ended_of : TaskGraph → List String × Kahn
ended_of graph =
    kahn_loop (suc (length graph.deps)) (tables_of graph).dependents (start_of graph) []

module _ (graph : TaskGraph) (g : IsGraph graph) where
  pub tables-Counted : Counted (node_ids graph.deps) (tables_of graph)
  tables-Counted =
      add_rows-Counted (node_ids graph.deps) (init_tables (node_ids graph.deps)) graph.deps g.sorted
        g.sets (λ n d i. rw (init_tables-children (node_ids graph.deps) d) refl)
        (init_tables-Counted (node_ids graph.deps))

  -- The table of dependents is the graph with its edges turned round.
  pub tables-children :
      (n d : String)
      → contains n (children (tables_of graph).dependents d) ≡ contains d (children graph.deps n)
  tables-children n d =
      rw
        (
          add_rows-children (init_tables (node_ids graph.deps)) graph.deps n d g.sorted,
          init_tables-children (node_ids graph.deps) d,
        )
        refl

  start-Sorting : Sorting (tables_of graph).dependents (node_ids graph.deps) (start_of graph) [] []
  start-Sorting =
      let v = tables-Counted in
      record {
        exact = λ n. ground (arith, v.exact n, missing-nil n (tables_of graph).dependents);
        released = λ n i. ground (
          arith,
          v.exact n,
          zeros-get (tables_of graph).indegree n v.counts,
          missing-nil n (tables_of graph).dependents,
        );
        apart = λ n r. refl;
        within = λ n r. ground (arith, v.exact n, zeros-get (tables_of graph).indegree n v.counts);
        topo = tt;
      }

pub length-node_ids : (m : List (String × List String)) → length (node_ids m) ≡ length m
unfolding node_ids
length-node_ids [] = refl
length-node_ids (x ∷ m) = ground (arith, length-node_ids m)

reverse-Sequenced :
    (dep m : Dependents) (done later : List String)
    → ((n d : String) → contains n (children dep d) ≡ contains d (children m n))
    → Topo dep done
    → Sequenced m done later
    → Sequenced m [] (reverse_aux done later)
reverse-Sequenced dep m [] later e t s = s
reverse-Sequenced dep m (n ∷ done) later e t s =
    reverse-Sequenced dep m done (n ∷ later) e t.2 ((λ d c. t.0 d (ground (arith, e n d))), t.1, s)

contains-reverse_aux :
    (n : String) (xs ys : List String)
    → contains n (reverse_aux xs ys) ≡ (contains n xs || contains n ys)
contains-reverse_aux n [] ys = refl
contains-reverse_aux n (x ∷ xs) ys = ground (arith, contains-reverse_aux n xs (x ∷ ys))

topo_serial-ok :
    (graph : TaskGraph) (order : List String)
    → topo_serial graph ≡ ok order
    → (length (ended_of graph).0 ≡ length graph.deps) × (order ≡ reverse (ended_of graph).0)
unfolding topo_serial
topo_serial-ok graph order h = elim (Bool-cases (length (ended_of graph).0 == length graph.deps)) [
  | inl e ↦ ground (arith, h, e)
  | inr e ↦ ground (arith, h, e)
]

module _ (graph : TaskGraph) (g : IsGraph graph) where
  pub ended-Sorting :
      Sorting
        (tables_of graph).dependents
        (node_ids graph.deps)
        (ended_of graph).1
        (ended_of graph).0
        []
      × ((ended_of graph).1.ready ≡ [])
  ended-Sorting =
      kahn_loop-Sorting (tables_of graph).dependents (node_ids graph.deps) (suc (length graph.deps))
        (start_of graph) [] (tables-Counted graph g).linked
        (omega (arith, length-node_ids graph.deps)) (start-Sorting graph g)

-- A serial order of a graph, whose rows are sorted sets, lists each of its nodes exactly once, every node after all of its
-- dependencies.
pub topo_serial-Sequenced :
    (graph : TaskGraph) (order : List String)
    → IsGraph graph
    → topo_serial graph ≡ ok order
    → Sequenced graph.deps [] order
      × ((n : String) → contains n order ≡ contains n (node_ids graph.deps))
topo_serial-Sequenced graph order g h =
    let v = (ended-Sorting graph g).0 in
    let t = topo_serial-ok graph order h in
    let done = (ended_of graph).0 in
    rw t.1 (
      reverse-Sequenced (tables_of graph).dependents graph.deps done [] (tables-children graph g)
          v.topo tt,
      λ n. rw (contains-reverse_aux n done []) (elim (Bool-cases (contains n done)) [
        | inl e ↦ ground (arith, e, v.within n)
        | inr e ↦ ground (
          arith,
          e,
          Set.Distinct-full done (node_ids graph.deps) (Topo-Distinct _ done v.topo)
              (λ k c. v.within k (ground (arith, c)))
              (omega (arith, t.0, length-node_ids graph.deps)) n,
        )
      ]),
    )
