-- ===== src/Task/Selectors/Tests.antt =====
-- crates/nxr-task/src/selectors.rs and resolve.rs: a small document.
use nxr.Base.Map
use nxr.Base.Set.{contains}
use nxr.Task.Selectors.Meaning.{Reads}
use nxr.Base.{◌↔◌, ◌≡◌, refl, true, false, List, [], ◌∷◌, none, some, String, Option}
use nxr.Base.Order.{string_ord}
use nxr.Base.Set
use nxr.Base.Map.{get}
use nxr.Base.Texts.{strip_prefix, starts_with, has_text, ascii_lowercase}
use nxr.Task.Schema.{TaskDefinition, Tasks}
use nxr.Task.Resolve
use nxr.Task.Resolve.{
  score, scored, keys_of, aliases_of, place_by, sort_by, take_suggestions, rank_task_suggestions,
  owners_of, resolve_alias, resolve_task_name, in_category, listable_tasks_filtered, listable_tasks,
}
use nxr.Task.Selectors.{
  ParsedSelector, ok, parse_selector, add_target, add_targets, add_category, add_named,
  add_selector, add_tokens, resolve_task_targets,
}
use nxr.Task.Selectors.Resolution.{IsResolution, resolve_task_targets-IsResolution}
use nxr.Task.Selectors.Errors.{Fails, is_error, resolve_task_targets-error}

abbrev task_in : Option String → List String → TaskDefinition
task_in cat aliases = record {
  depends_on = [];
  app = "";
  working_directory = none;
  hidden = false;
  category = cat;
  aliases = aliases;
  interactive = false;
  paths = [];
  resources = none;
  matrix = none;
}

abbrev doc : Tasks
doc =
    ("ci", task_in (some "validation") ("check" ∷ "gate" ∷ []))
    ∷ ("fmt", task_in none ("gate" ∷ []))
    ∷ ("lint", task_in (some "validation") [])
    ∷ []

abbrev tokens : List String
tokens = "check" ∷ "changed" ∷ "category:validation" ∷ "task:fmt" ∷ []

tokens-resolved :
    resolve_task_targets doc tokens
    ≡ ok (record { tasks = "ci" ∷ "lint" ∷ "fmt" ∷ []; use_affected = true })
unfolding resolve_task_targets add_tokens add_selector add_named add_category add_targets add_target
    parse_selector strip_prefix resolve_task_name resolve_alias owners_of listable_tasks
    listable_tasks_filtered in_category keys_of get Set.insert
tokens-resolved = refl

-- Two tasks have the alias, and both are named.
gate-ambiguous :
    resolve_task_name doc "gate"
    ≡ Resolve.err (record { name = "gate"; suggestions = "ci" ∷ "fmt" ∷ [] })
unfolding resolve_task_name resolve_alias owners_of get
gate-ambiguous = refl

li-suggested : rank_task_suggestions "LI" doc ≡ "lint" ∷ []
unfolding rank_task_suggestions score scored keys_of aliases_of place_by sort_by take_suggestions
    starts_with strip_prefix has_text ascii_lowercase
li-suggested = refl

abbrev doc_sorted : Map.IsSorted doc
doc_sorted = ((refl, (refl, tt)), ((refl, tt), (tt, tt)))

resolve_task_targets-IsResolution_example :
    IsResolution doc tokens (record { tasks = "ci" ∷ "lint" ∷ "fmt" ∷ []; use_affected = true })
resolve_task_targets-IsResolution_example =
    resolve_task_targets-IsResolution doc tokens
      (record { tasks = "ci" ∷ "lint" ∷ "fmt" ∷ []; use_affected = true }) doc_sorted
      tokens-resolved

resolve_task_targets-error_example : (is_error (resolve_task_targets doc ("gate" ∷ [])) ≡ true) ↔ (
    (token : String) × (p : ParsedSelector) × (contains token ("gate" ∷ []) ≡ true)
    × Reads token p
    × Fails doc p)
resolve_task_targets-error_example = resolve_task_targets-error doc ("gate" ∷ []) doc_sorted
