-- ===== src/Affected/Empty.antt =====
-- crates/nxr-affected/src/analyze.rs: an empty set of changed paths.
use nxr.Base.{◌≡◌, refl, Bool, true, false, [], ◌∷◌, Option, none, some, String, arith, get_or}
use nxr.Base.Order.{string_ord, eqb_iff, eqb_self}
use nxr.Base.Map
use nxr.Base.Map.{get}
use nxr.Affected.Paths.{Globs}
use nxr.Affected.Graph.{NodeKind, app, task, GraphNode, Nodes, AffectedGraph}
use nxr.Affected.Marks.{
  NodeStatus, affected, unaffected, unknown, Status, is_marked, no_marks, unaffected_all,
}
use nxr.Affected.Analyze.{classify}
use nxr.Affected.Results.{include_in_lists, listed, sort, collect_results, analyze}
use nxr.Affected.Spread.{is_some}
use nxr.Affected.Closing.{unaffected_all-Total, unaffected_all-unmarked}

left_out :
    (o : Option NodeStatus) (strict : Bool)
    → is_some o ≡ true
    → is_marked o ≡ false
    → include_in_lists (get_or o unknown) strict ≡ false
unfolding include_in_lists
left_out none strict p h = cc
left_out (some affected) strict p h = cc
left_out (some unaffected) strict p h = refl
left_out (some unknown) strict p h = cc

listed-nothing :
    (kind : NodeKind) (status : Status) (strict : Bool) (nodes : Nodes)
    → Map.IsSorted nodes
    → ((k : String) (node : GraphNode)
        → get k nodes ≡ some node
        → include_in_lists (get_or (get k status) unknown) strict ≡ false)
    → listed kind status strict nodes ≡ []
unfolding listed get
listed-nothing kind status strict [] s h = refl
listed-nothing kind status strict ((key, node) ∷ nodes) s h = ground (
  arith,
  h key node (ground (arith, eqb_self key)),
  listed-nothing kind status strict nodes s.1
      (λ k n g. h k n (ground (arith, g, eqb_iff k key, Map.Before-get key nodes s.0))),
)

-- Where no path is changed, no app and no task of a graph whose nodes are sorted is listed, in a strict
-- analysis either.
pub analyze-nothing :
    (globs : Globs) (graph : AffectedGraph) (flake system : String) (strict : Bool)
    → Map.IsSorted graph.nodes
    → ((analyze globs graph [] flake system strict).apps ≡ [])
      × ((analyze globs graph [] flake system strict).tasks ≡ [])
unfolding analyze collect_results classify sort get
analyze-nothing globs graph flake system strict s =
    let status = (unaffected_all graph.nodes no_marks).status in
    let out = λ (k : String) (node : GraphNode) (g : get k graph.nodes ≡ some node).
      left_out (get k status) strict (unaffected_all-Total graph.nodes no_marks k node g)
        (unaffected_all-unmarked k graph.nodes no_marks refl) in
    (
      rw (listed-nothing app status strict graph.nodes s out) refl,
      rw (listed-nothing task status strict graph.nodes s out) refl,
    )
