-- ===== src/Task/Planner/Complete.antt =====
-- crates/nxr-task/src/planner.rs: when the sort finds an order.
use mathlib.Core.List.{reverse}
use nxr.Base.{◌≡◌, refl, true, false, List, [], ◌∷◌, String, arith, length}
use nxr.Base.Order.{string_ord, eqb_iff, eqb_self}
use nxr.Base.Set
use nxr.Base.Set.{contains}
use nxr.Task.Rows.{children}
use nxr.Base.Map
use nxr.Task.Planner.Tables.{Before-node_ids}
use nxr.Task.Graph.Defs.{ok, TaskGraph, node_ids}
use nxr.Task.Graph.Rows.{IsGraph}
use nxr.Task.Planner.Defs.{topo_serial}
use nxr.Task.Planner.Missing.{missing-done}
use nxr.Task.Planner.Kahn.{done-within}
use nxr.Task.Planner.Serial.{
  Sequenced, tables_of, ended_of, ended-Sorting, tables-children, tables-Counted, length-node_ids,
}

module _ (graph : TaskGraph) (g : IsGraph graph) where
  -- Nothing is ready at the end, so a node whose dependencies are all in the order is in it too.
  settled-done :
      (n : String)
      → contains n (node_ids graph.deps) ≡ true
      → ((d : String)
          → contains d (children graph.deps n) ≡ true
          → contains d (ended_of graph).0 ≡ true)
      → contains n (ended_of graph).0 ≡ true
  settled-done n i h =
      let v = (ended-Sorting graph g).0 in
      let empty = (ended-Sorting graph g).1 in
      let none_missing =
        missing-done n (ended_of graph).0 (tables_of graph).dependents
          (tables-Counted graph g).linked.rows
          (λ d c. h d (ground (arith, c, tables-children graph g n d))) in
      let nothing : contains n (ended_of graph).1.ready ≡ false = rw empty refl in
      ground (arith, v.released n i, none_missing, nothing)

  Sequenced-done :
      (earlier later : List String)
      → Sequenced graph.deps earlier later
      → ((n : String) → contains n later ≡ true → contains n (node_ids graph.deps) ≡ true)
      → ((n : String) → contains n earlier ≡ true → contains n (ended_of graph).0 ≡ true)
      → (n : String) → contains n later ≡ true
      → contains n (ended_of graph).0 ≡ true
  Sequenced-done earlier [] s i e n c = cc
  Sequenced-done earlier (x ∷ later) s i e n c =
      let x_done = settled-done x (i x (ground (arith, eqb_self x))) (λ d h. e d (s.0 d h)) in
      ground (
        arith,
        c,
        x_done,
        eqb_iff n x,
        Sequenced-done (x ∷ earlier) later s.2 (λ k h. i k (ground (arith, h)))
            (λ k h. ground (arith, h, x_done, e k, eqb_iff k x)) n,
      )

node_ids-Distinct : (m : List (String × List String)) → Map.IsSorted m → Set.Distinct (node_ids m)
unfolding node_ids
node_ids-Distinct [] s = tt
node_ids-Distinct ((n, deps) ∷ m) s = (Before-node_ids n m s.0, node_ids-Distinct m s.1)

-- A graph, its rows sorted sets, whose nodes can be put in some order with the dependencies first gets a serial order.
pub topo_serial_complete :
    (graph : TaskGraph) (order : List String)
    → IsGraph graph
    → Sequenced graph.deps [] order
    → ((n : String) → contains n order ≡ contains n (node_ids graph.deps))
    → (found : List String) × (topo_serial graph ≡ ok found)
unfolding topo_serial
topo_serial_complete graph order g s same =
    let ids = node_ids graph.deps in
    let done = (ended_of graph).0 in
    let v = (ended-Sorting graph g).0 in
    let all_done =
      Sequenced-done graph g [] order s (λ n c. ground (arith, c, same n))
        (λ n c. ground (arith, c)) in
    let long =
      Set.Distinct-length ids done (node_ids-Distinct graph.deps g.sorted)
        (λ n c. all_done n (ground (arith, c, same n))) in
    let short = done-within (tables_of graph).dependents ids (ended_of graph).1 done v in
    let whole : length done ≡ length graph.deps =
      omega (arith, long, short, length-node_ids graph.deps) in
    (reverse done, ground (arith, whole))
