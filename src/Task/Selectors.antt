-- ===== src/Task/Selectors.antt =====
-- crates/nxr-task/src/selectors.rs: selectors of tasks.
pub mod Meaning
pub mod Parsing
pub mod Named
pub mod Chosen
pub mod Stand
pub mod Resolution
pub mod Errors
mod Tests
use nxr.Base.{Bool, true, false, List, [], ◌∷◌, ◌++◌, Option, none, some, String, if◌then◌else◌}
use nxr.Base.Order.{string_ord, eqb}
use nxr.Base.Set
use nxr.Base.Set.{contains}
use nxr.Base.Texts.{strip_prefix}
use nxr.Task.Schema.{Tasks}
use nxr.Task.Resolve
use nxr.Task.Resolve.{keys_of, resolve_task_name, listable_tasks}

pub data ParsedSelector : Type 0 where
  category : (name : String) → ParsedSelector
  changed : ParsedSelector
  task : (name : String) → ParsedSelector
  app : (name : String) → ParsedSelector
  bare : (name : String) → ParsedSelector

pub data SelectorError : Type 0 where
  app_selector : (name : String) → SelectorError
  empty_category : (name : String) → SelectorError
  unknown : (token : String) → SelectorError

pub data Result {ℓ} (A : Type ℓ) : Type ℓ where
  ok : A → Result A
  err : SelectorError → Result A

pub record TaskTargetResolution : Type 0 where
  pub tasks : List String
  pub use_affected : Bool

unfoldable pub parse_selector : String → ParsedSelector
parse_selector token =
    if eqb token "changed" then changed else elim (strip_prefix token "category:") [
      | some name ↦ category name
      | none ↦ elim (strip_prefix token "task:") [
        | some name ↦ task name
        | none ↦ elim (strip_prefix token "app:") [ some name ↦ app name | none ↦ bare token ]
      ]
    ]

-- The targets so far, and whether the changed tasks are asked for.
pub record Targets : Type 0 where
  pub tasks : List String
  pub seen : List String
  pub use_affected : Bool

unfoldable pub add_target : String → Targets → Targets
add_target name s =
    if contains name s.seen
    then s
    else record s { tasks = s.tasks ++ (name ∷ []); seen = Set.insert name s.seen }

unfoldable pub add_targets : List String → Targets → Targets
add_targets [] s = s
add_targets (name ∷ names) s = add_targets names (add_target name s)

unfoldable pub add_category : Tasks → String → Targets → Result Targets
add_category doc name s = elim (keys_of (listable_tasks doc (some name))) [
  | [] ↦ err (empty_category name)
  | first ∷ rest ↦ ok (add_targets (first ∷ rest) s)
]

unfoldable pub add_named : Tasks → (token name : String) → Targets → Result Targets
add_named doc token name s = elim (resolve_task_name doc name) [
  | Resolve.err _ ↦ err (unknown token)
  | Resolve.ok canonical ↦ ok (add_target canonical s)
]

unfoldable pub add_selector : Tasks → String → ParsedSelector → Targets → Result Targets
add_selector doc token changed s = ok (record s { use_affected = true })
add_selector doc token (app name) s = err (app_selector name)
add_selector doc token (category name) s = add_category doc name s
add_selector doc token (task name) s = add_named doc token name s
add_selector doc token (bare name) s = add_named doc token name s

unfoldable pub add_tokens : Tasks → List String → Targets → Result Targets
add_tokens doc [] s = ok s
add_tokens doc (token ∷ tokens) s = elim (add_selector doc token (parse_selector token) s) [
  | err e ↦ err e
  | ok next ↦ add_tokens doc tokens next
]

abbrev pub no_targets : Targets
no_targets = record { tasks = []; seen = []; use_affected = false }

unfoldable pub resolve_task_targets : Tasks → List String → Result TaskTargetResolution
resolve_task_targets doc tokens = elim (add_tokens doc tokens no_targets) [
  | err e ↦ err e
  | ok s ↦ ok (record { tasks = s.tasks; use_affected = s.use_affected })
]

pub record ListSelectorResolution : Type 0 where
  pub category_name : Option String
  pub affected_only : Bool

unfoldable pub list_selector : String → ParsedSelector → Result ListSelectorResolution
list_selector token (category name) =
    ok (record { category_name = some name; affected_only = false })
list_selector token changed = ok (record { category_name = none; affected_only = true })
list_selector token (app name) = err (unknown token)
list_selector token (task name) = err (unknown token)
list_selector token (bare name) = err (unknown token)

unfoldable pub resolve_list_selector : String → Result ListSelectorResolution
resolve_list_selector token = list_selector token (parse_selector token)
