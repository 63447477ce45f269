-- ===== src/Affected/Tests.antt =====
-- crates/nxr-affected: small graphs, analyzed.
use nxr.Base.{◌≡◌, refl, true, false, List, [], ◌∷◌, none, String}
use nxr.Base.Order.{string_ord}
use nxr.Base.Set
use nxr.Base.Set.{contains}
use nxr.Base.Map
use nxr.Base.Map.{get}
use nxr.Base.Texts.{is_whitespace, trim, trim_start, trim_end, ascii_uppercase}
use nxr.Task.Schema.{TaskDefinition, Tasks}
use nxr.Base.Texts.{starts_with, strip_prefix}
use nxr.Affected.Text.{
  slashed, trim_slashes, after_last, until_slash, any_component, has_parent_dir, is_absolute,
  last_component, extension_of, extension, eq_ignore_ascii_case, has_meta, before_meta,
}
use nxr.Affected.Paths.{
  Globs, normalize_relative_path, is_global_invalidation_path, looks_like_glob, literal_path_prefix,
  prefix_overlap, any_overlap, any_root_overlaps, roots_may_overlap_changes,
  validate_repo_relative_root, check_glob, validate_path_roots, collect_globs, compile_globset,
  set_is_match, overlaps_root, path_matches_roots,
}
use nxr.Affected.Graph.{
  App, task, node_key, string_items, as_paths, paths_from_metadata, dedupe_from, dedupe_paths,
  working_directory_root, task_path_roots, add_apps, task_node, add_tasks, add_dependent,
  add_dependencies, add_app, add_nodes, reverse_dependencies, build_graph, AffectedGraph,
}
use nxr.Affected.Marks.{
  has_reason, push_reason, set_status, add_reason, push_global, mark_global_affected, offending,
  match_changed_paths, classify_node, classify_path_hits, finalize_empty_roots, unaffected_all,
  any_global,
}
use nxr.Affected.Analyze.{
  dependency_reason, enqueue, mark_child, reach_affected, reach_unknown, reach, reach_all,
  spread_from, spread_loop, marked_keys, count_edges, propagate_dependencies, classify,
}
use nxr.Affected.Results.{
  include_in_lists, kind_label, listed, collect_nodes, place, sort, place_node, sort_nodes,
  collect_results, analyze,
}
use nxr.Affected.Listed.{analyze-Closed}
use nxr.Affected.Empty.{analyze-nothing}

-- No pattern is refused, and none matches.
abbrev globs : Globs
globs = record {
  new_error = λ pat. none;
  build_error = λ pats. none;
  is_match = λ pats path. false;
}

abbrev task_at : List String → List String → TaskDefinition
task_at paths deps = record {
  depends_on = deps;
  app = "run";
  working_directory = none;
  hidden = false;
  category = none;
  aliases = [];
  interactive = false;
  paths = paths;
  resources = none;
  matrix = none;
}

abbrev run_app : App
run_app = record {
  name = "run";
  attr_path = "apps.x.run";
  flake_ref = ".";
  system = "x";
  description = none;
  is_default = false;
  metadata = [];
}

-- `test` depends on `lib`, where a file is changed.
abbrev tasks : Tasks
tasks =
    ("lib", task_at ("lib" ∷ []) [])
    ∷ ("other", task_at ("other" ∷ []) [])
    ∷ ("test", task_at ("tests" ∷ []) ("lib" ∷ []))
    ∷ []

abbrev one : AffectedGraph
one = record {
  nodes =
      (
        "task:lib",
        record {
          kind = task;
          name = "lib";
          path_roots = "lib" ∷ [];
          depends_on = [];
          app_name = none;
        },
      )
      ∷ (
        "task:x",
        record {
          kind = task;
          name = "x";
          path_roots = [];
          depends_on = "lib" ∷ [];
          app_name = none;
        },
      )
      ∷ [];
  dependents = ("task:lib", "task:x" ∷ []) ∷ [];
}

lib_changed :
    (analyze globs (build_graph (run_app ∷ []) tasks) ("lib/a.rs" ∷ []) "." "x" true).tasks
    ≡ "lib" ∷ "test" ∷ []
unfolding starts_with strip_prefix slashed trim_slashes after_last until_slash any_component
    has_parent_dir is_absolute last_component extension_of extension eq_ignore_ascii_case has_meta
    before_meta normalize_relative_path is_global_invalidation_path looks_like_glob
    literal_path_prefix prefix_overlap any_overlap any_root_overlaps roots_may_overlap_changes
    validate_repo_relative_root check_glob validate_path_roots collect_globs compile_globset
    set_is_match overlaps_root path_matches_roots node_key string_items as_paths paths_from_metadata
    dedupe_from dedupe_paths working_directory_root task_path_roots add_apps task_node add_tasks
    add_dependent add_dependencies add_app add_nodes reverse_dependencies build_graph has_reason
    push_reason set_status add_reason push_global mark_global_affected offending match_changed_paths
    classify_node classify_path_hits dependency_reason enqueue mark_child reach_affected
    reach_unknown reach reach_all spread_from spread_loop marked_keys count_edges
    propagate_dependencies finalize_empty_roots unaffected_all any_global classify include_in_lists
    kind_label listed collect_nodes place sort place_node sort_nodes collect_results analyze get
    Map.insert Map.remove Set.insert trim trim_start trim_end is_whitespace ascii_uppercase
lib_changed = refl

analyze-Closed_example :
    contains "test"
      (analyze globs (build_graph (run_app ∷ []) tasks) ("lib/a.rs" ∷ []) "." "x" true).tasks
    ≡ true
unfolding get
analyze-Closed_example =
    analyze-Closed globs (run_app ∷ []) tasks ("lib/a.rs" ∷ []) "." "x" "test" "lib"
      (task_at ("tests" ∷ []) ("lib" ∷ [])) ((refl, (refl, tt)), ((refl, tt), (tt, tt))) refl refl
      (rw lib_changed refl)

-- `b` needs `a`, whose root leaves the repository, and `z`, which needs the changed `y`. `k2` is affected
-- in the end, yet `k1`, which depends on it, is left unknown and is not listed.
abbrev late : Tasks
late =
    ("a", task_at ("../a" ∷ []) [])
    ∷ ("b", task_at ("b" ∷ []) ("a" ∷ "z" ∷ []))
    ∷ ("k1", task_at ("k" ∷ []) ("k2" ∷ []))
    ∷ ("k2", task_at ("k" ∷ []) ("k3" ∷ []))
    ∷ ("k3", task_at ("k" ∷ []) ("b" ∷ []))
    ∷ ("y", task_at ("y" ∷ []) [])
    ∷ ("z", task_at ("z" ∷ []) ("y" ∷ []))
    ∷ []

late_unlisted :
    (analyze globs (build_graph (run_app ∷ []) late) ("y/a.rs" ∷ []) "." "x" false).tasks
    ≡ "b" ∷ "k2" ∷ "k3" ∷ "y" ∷ "z" ∷ []
unfolding starts_with strip_prefix slashed trim_slashes after_last until_slash any_component
    has_parent_dir is_absolute last_component extension_of extension eq_ignore_ascii_case has_meta
    before_meta normalize_relative_path is_global_invalidation_path looks_like_glob
    literal_path_prefix prefix_overlap any_overlap any_root_overlaps roots_may_overlap_changes
    validate_repo_relative_root check_glob validate_path_roots collect_globs compile_globset
    set_is_match overlaps_root path_matches_roots node_key string_items as_paths paths_from_metadata
    dedupe_from dedupe_paths working_directory_root task_path_roots add_apps task_node add_tasks
    add_dependent add_dependencies add_app add_nodes reverse_dependencies build_graph has_reason
    push_reason set_status add_reason push_global mark_global_affected offending match_changed_paths
    classify_node classify_path_hits dependency_reason enqueue mark_child reach_affected
    reach_unknown reach reach_all spread_from spread_loop marked_keys count_edges
    propagate_dependencies finalize_empty_roots unaffected_all any_global classify include_in_lists
    kind_label listed collect_nodes place sort place_node sort_nodes collect_results analyze get
    Map.insert Map.remove Set.insert trim trim_start trim_end is_whitespace ascii_uppercase
late_unlisted = refl

analyze-nothing_example :
    ((analyze globs one [] "." "x" true).apps ≡ [])
    × ((analyze globs one [] "." "x" true).tasks ≡ [])
analyze-nothing_example = analyze-nothing globs one "." "x" true ((refl, tt), (tt, tt))
