-- ===== src/Affected/Marks.antt =====
-- crates/nxr-affected/src/analyze.rs: the marks of the nodes: their statuses, with the reasons.
use nxr.Base.{
  Bool, true, false, ◌&&◌, ◌||◌, List, [], ◌∷◌, ◌++◌, Option, none, some, String, if◌then◌else◌,
  get_or,
}
use nxr.Base.Order.{string_ord, eqb}
use nxr.Base.Map
use nxr.Base.Map.{get}
use nxr.Affected.Paths
use nxr.Affected.Paths.{
  Globs, PathRootError, invalid_glob, invalid_repo_path, is_global_invalidation_path,
  path_matches_roots, roots_may_overlap_changes, validate_path_roots,
}
use nxr.Affected.Graph.{GraphNode, Nodes}

pub data NodeStatus : Type 0 where
  affected unaffected unknown : NodeStatus

pub data AffectedReason : Type 0 where
  path : (path : String) → AffectedReason
  global_input : (path : String) → AffectedReason
  dependency : (source : String) → AffectedReason
  by_app : (name : String) → AffectedReason
  invalid_root : (root : String) → AffectedReason
  empty_roots : AffectedReason
  unknown_dependency : (source : String) → AffectedReason

-- The kind of a reason as a number, and its text: two reasons are equal when both are.
abbrev pub reason_parts : AffectedReason → String × String
reason_parts (path p) = ("path", p)
reason_parts (global_input p) = ("global_input", p)
reason_parts (dependency s) = ("dependency", s)
reason_parts (by_app n) = ("app", n)
reason_parts (invalid_root r) = ("invalid_glob", r)
reason_parts empty_roots = ("empty_roots", "")
reason_parts (unknown_dependency s) = ("unknown_dependency", s)

abbrev pub same_reason : AffectedReason → AffectedReason → Bool
same_reason a b =
    eqb (reason_parts a).0 (reason_parts b).0 && eqb (reason_parts a).1 (reason_parts b).1

abbrev pub Status : Type 0
Status = List (String × NodeStatus)

abbrev pub Reasons : Type 0
Reasons = List (String × List AffectedReason)

pub record Marks : Type 0 where
  pub status : Status
  pub reasons : Reasons

unfoldable pub has_reason : AffectedReason → List AffectedReason → Bool
has_reason reason [] = false
has_reason reason (r ∷ rs) = same_reason r reason || has_reason reason rs

unfoldable pub push_reason : Reasons → String → AffectedReason → Reasons
push_reason reasons key reason =
    let entry = get_or (get key reasons) [] in
    Map.insert key (if has_reason reason entry then entry else entry ++ (reason ∷ [])) reasons

unfoldable pub set_status : String → NodeStatus → Marks → Marks
set_status key status m = record m { status = Map.insert key status m.status }

unfoldable pub add_reason : String → AffectedReason → Marks → Marks
add_reason key reason m = record m { reasons = push_reason m.reasons key reason }

unfoldable pub push_global : String → List String → Marks → Marks
push_global key [] m = m
push_global key (p ∷ paths) m =
    push_global key paths
      (if is_global_invalidation_path p then add_reason key (global_input p) m else m)

unfoldable pub mark_global_affected : Nodes → List String → Marks → Marks
mark_global_affected [] changed m = m
mark_global_affected ((key, node) ∷ nodes) changed m =
    mark_global_affected nodes changed (set_status key affected (push_global key changed m))

unfoldable pub offending : PathRootError → String
offending (invalid_glob glob message) = glob
offending (invalid_repo_path p) = p

pub data PathMatchOutcome : Type 0 where
  matched missed invalid : PathMatchOutcome

-- Whether a path matched so far is carried along.
unfoldable pub match_changed_paths :
    Globs → String → List String → List String → Bool → Reasons → PathMatchOutcome × Reasons
match_changed_paths globs key roots [] hit reasons = (if hit then matched else missed, reasons)
match_changed_paths globs key roots (p ∷ changed) hit reasons =
    elim (path_matches_roots globs p roots) [
      | Paths.ok true ↦
          match_changed_paths globs key roots changed true (push_reason reasons key (path p))
      | Paths.ok false ↦ match_changed_paths globs key roots changed hit reasons
      | Paths.err e ↦ (invalid, push_reason reasons key (invalid_root (offending e)))
    ]

abbrev pub outcome_status : PathMatchOutcome → NodeStatus
outcome_status matched = affected
outcome_status missed = unaffected
outcome_status invalid = unknown

unfoldable pub classify_node : Globs → List String → String → GraphNode → Marks → Marks
classify_node globs changed key node m = elim (validate_path_roots globs node.path_roots) [
  | Paths.err e ↦ set_status key unknown (add_reason key (invalid_root (offending e)) m)
  | Paths.ok _ ↦ elim node.path_roots [
    | [] ↦ m
    | root ∷ roots ↦
        if roots_may_overlap_changes (root ∷ roots) changed
        then (let found = match_changed_paths globs key (root ∷ roots) changed false m.reasons in
            set_status key (outcome_status found.0) (record m { reasons = found.1 }))
        else set_status key unaffected m
  ]
]

unfoldable pub classify_path_hits : Globs → List String → Nodes → Marks → Marks
classify_path_hits globs changed [] m = m
classify_path_hits globs changed ((key, node) ∷ nodes) m =
    classify_path_hits globs changed nodes (classify_node globs changed key node m)

abbrev pub is_marked : Option NodeStatus → Bool
is_marked none = false
is_marked (some affected) = true
is_marked (some unknown) = true
is_marked (some unaffected) = false

unfoldable pub finalize_empty_roots : Nodes → Marks → Marks
finalize_empty_roots [] m = m
finalize_empty_roots ((key, node) ∷ nodes) m = finalize_empty_roots nodes (elim (get key m.status) [
  | some _ ↦ m
  | none ↦ elim node.path_roots [
    | [] ↦ set_status key unknown (add_reason key empty_roots m)
    | _ ∷ _ ↦ set_status key unaffected m
  ]
])

unfoldable pub unaffected_all : Nodes → Marks → Marks
unaffected_all [] m = m
unaffected_all ((key, node) ∷ nodes) m = unaffected_all nodes (set_status key unaffected m)

unfoldable pub any_global : List String → Bool
any_global [] = false
any_global (p ∷ changed) = is_global_invalidation_path p || any_global changed

abbrev pub no_marks : Marks
no_marks = record { status = []; reasons = [] }
