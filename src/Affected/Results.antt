-- ===== src/Affected/Results.antt =====
-- crates/nxr-affected/src/analyze.rs: the result that the marks are collected into.
use Prim.Native.String.{compare}
use Prim.Native.Nat.{Ordering}
use nxr.Base.{ℕ, Bool, true, false, ◌&&◌, List, [], ◌∷◌, String, if◌then◌else◌, get_or}
use nxr.Base.Order.{string_ord}
use nxr.Base.Map
use nxr.Base.Map.{get}
use nxr.Affected.Paths.{Globs}
use nxr.Affected.Graph.{NodeKind, app, task, Nodes, AffectedGraph}
use nxr.Affected.Marks.{
  NodeStatus, affected, unaffected, unknown, AffectedReason, Status, Reasons, Marks,
}
use nxr.Affected.Analyze.{classify}

pub record AffectedNode : Type 0 where
  pub kind : String
  pub name : String
  pub status : NodeStatus
  pub reasons : List AffectedReason

pub record AffectedAnalysis : Type 0 where
  pub schema_version : ℕ
  pub flake : String
  pub system : String
  pub strict : Bool
  pub changed_paths : List String
  pub apps : List String
  pub tasks : List String
  pub nodes : List AffectedNode

unfoldable pub include_in_lists : NodeStatus → Bool → Bool
include_in_lists affected strict = true
include_in_lists unknown strict = strict
include_in_lists unaffected strict = false

unfoldable pub kind_label : NodeKind → String
kind_label app = "app"
kind_label task = "task"

abbrev pub same_kind : NodeKind → NodeKind → Bool
same_kind app app = true
same_kind app task = false
same_kind task app = false
same_kind task task = true

-- The names of the nodes of a kind that are listed, in the order of the nodes.
unfoldable pub listed : NodeKind → Status → Bool → Nodes → List String
listed kind status strict [] = []
listed kind status strict ((key, node) ∷ nodes) =
    let rest = listed kind status strict nodes in
    if same_kind node.kind kind && include_in_lists (get_or (get key status) unknown) strict
    then node.name ∷ rest
    else rest

-- The nodes with their statuses; the reasons are taken out of the map.
unfoldable pub collect_nodes : Status → Reasons → Nodes → List AffectedNode
collect_nodes status reasons [] = []
collect_nodes status reasons ((key, node) ∷ nodes) =
    record {
      kind = kind_label node.kind;
      name = node.name;
      status = get_or (get key status) unknown;
      reasons = get_or (get key reasons) [];
    }
    ∷ collect_nodes status (Map.remove key reasons) nodes

abbrev pub string_le : String → String → Bool
string_le s t = elim (compare s t) [ Ordering.lt ↦ true | Ordering.eq ↦ true | Ordering.gt ↦ false ]

-- `sort`: each element goes before the first one that is not less than it.
unfoldable pub place : String → List String → List String
place x [] = x ∷ []
place x (y ∷ ys) = let rest = place x ys in if string_le x y then x ∷ y ∷ ys else y ∷ rest

unfoldable pub sort : List String → List String
sort [] = []
sort (x ∷ xs) = place x (sort xs)

-- By name, then by kind.
abbrev pub node_le : AffectedNode → AffectedNode → Bool
node_le a b = elim (compare a.name b.name) [
  | Ordering.lt ↦ true
  | Ordering.eq ↦ string_le a.kind b.kind
  | Ordering.gt ↦ false
]

unfoldable pub place_node : AffectedNode → List AffectedNode → List AffectedNode
place_node x [] = x ∷ []
place_node x (y ∷ ys) = let rest = place_node x ys in if node_le x y then x ∷ y ∷ ys else y ∷ rest

unfoldable pub sort_nodes : List AffectedNode → List AffectedNode
sort_nodes [] = []
sort_nodes (x ∷ xs) = place_node x (sort_nodes xs)

unfoldable pub collect_results :
    Nodes → Marks → Bool → List String × List String × List AffectedNode
collect_results nodes m strict = (
  sort (listed app m.status strict nodes),
  sort (listed task m.status strict nodes),
  sort_nodes (collect_nodes m.status m.reasons nodes),
)

unfoldable pub analyze :
    Globs
    → AffectedGraph
    → (changed_paths : List String) → (flake system : String) → (strict : Bool) → AffectedAnalysis
analyze globs graph changed_paths flake system strict =
    let found = collect_results graph.nodes (classify globs graph changed_paths) strict in
    record {
      schema_version = 2;
      flake = flake;
      system = system;
      strict = strict;
      changed_paths = changed_paths;
      apps = found.0;
      tasks = found.1;
      nodes = found.2;
    }
