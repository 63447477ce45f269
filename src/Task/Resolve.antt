-- ===== src/Task/Resolve.antt =====
-- crates/nxr-task/src/resolve.rs: task names, aliases and listings. Of a task document only the tasks are
-- read.
use nxr.Base.{
  ℕ, Bool, true, false, not, ◌&&◌, List, [], ◌∷◌, ◌++◌, Option, none, some, String, leb,
  if◌then◌else◌, length,
}
use Prim.Native.String.{compare}
use Prim.Native.Nat.{Ordering}
use nxr.Base.Order.{string_ord, eqb}
use nxr.Base.Set.{contains}
use nxr.Base.Map.{get}
use nxr.Base.Texts.{is_nothing, starts_with, has_text, ascii_lowercase}
use nxr.Task.Schema.{TaskDefinition, Tasks}

pub record ResolveTaskError : Type 0 where
  pub name : String
  pub suggestions : List String

pub data Result {ℓ} (A : Type ℓ) : Type ℓ where
  ok : A → Result A
  err : ResolveTaskError → Result A

-- The score of a name, if it is suggested.
unfoldable pub score : String → String → Option ℕ
score query_lower name =
    let name_lower = ascii_lowercase name in
    if starts_with name_lower query_lower
    then some 0
    else if has_text name_lower query_lower
    then some 1
    else none

unfoldable pub scored : String → List String → List (ℕ × String)
scored query_lower [] = []
scored query_lower (name ∷ names) =
    let rest = scored query_lower names in
    elim (score query_lower name) [ none ↦ rest | some s ↦ (s, name) ∷ rest ]

unfoldable pub keys_of : Tasks → List String
keys_of [] = []
keys_of ((name, definition) ∷ tasks) = name ∷ keys_of tasks

unfoldable pub aliases_of : Tasks → List String
aliases_of [] = []
aliases_of ((name, definition) ∷ tasks) = definition.aliases ++ aliases_of tasks

-- A stable sort: each element goes before the first one that is not less than it.
unfoldable pub place_by {ℓ} : {A : Type ℓ} → (A → A → Bool) → A → List A → List A
place_by le x [] = x ∷ []
place_by le x (y ∷ ys) = let rest = place_by le x ys in if le x y then x ∷ y ∷ ys else y ∷ rest

unfoldable pub sort_by {ℓ} : {A : Type ℓ} → (A → A → Bool) → List A → List A
sort_by le [] = []
sort_by le (x ∷ xs) = place_by le x (sort_by le xs)

abbrev pub by_name : ℕ × String → ℕ × String → Bool
by_name a b = elim (compare a.1 b.1) [
  | Ordering.lt ↦ true
  | Ordering.eq ↦ leb a.0 b.0
  | Ordering.gt ↦ false
]

abbrev pub by_score : ℕ × String → ℕ × String → Bool
by_score a b = leb a.0 b.0

-- The first five names, without repetitions; those taken so far come first.
unfoldable pub take_suggestions : List String → List (ℕ × String) → List String
take_suggestions taken [] = taken
take_suggestions taken ((s, name) ∷ rest) =
    if leb 5 (length taken)
    then taken
    else take_suggestions (if contains name taken then taken else taken ++ (name ∷ [])) rest

unfoldable pub rank_task_suggestions : String → Tasks → List String
rank_task_suggestions query tasks =
    if is_nothing query
    then []
    else take_suggestions [] (
        sort_by by_score
          (sort_by by_name (scored (ascii_lowercase query) (keys_of tasks ++ aliases_of tasks))))

unfoldable pub owners_of : String → Tasks → List String
owners_of name [] = []
owners_of name ((canonical, definition) ∷ tasks) =
    let rest = owners_of name tasks in
    if contains name definition.aliases then canonical ∷ rest else rest

unfoldable pub resolve_alias : Tasks → String → Result String
resolve_alias tasks name = elim (owners_of name tasks) [
  | [] ↦ err (record { name = name; suggestions = rank_task_suggestions name tasks })
  | owner ∷ others ↦ elim others [
    | [] ↦ ok owner
    | second ∷ rest ↦ err (record { name = name; suggestions = owner ∷ second ∷ rest })
  ]
]

unfoldable pub resolve_task_name : Tasks → String → Result String
resolve_task_name tasks name = elim (get name tasks) [
  | some _ ↦ ok name
  | none ↦ resolve_alias tasks name
]

unfoldable pub resolve_task : Tasks → String → Result (String × TaskDefinition)
resolve_task tasks name = elim (resolve_task_name tasks name) [
  | err e ↦ err e
  | ok canonical ↦ elim (get canonical tasks) [
    | none ↦ err (record { name = name; suggestions = [] })
    | some definition ↦ ok (canonical, definition)
  ]
]

unfoldable pub in_category : Option String → TaskDefinition → Bool
in_category none definition = true
in_category (some category) definition = elim definition.category [
  | none ↦ false
  | some c ↦ eqb c category
]

abbrev pub in_namespace : Option (List String) → String → Bool
in_namespace none name = true
in_namespace (some members) name = contains name members

unfoldable pub listable_tasks_filtered : Tasks → Option String → Option (List String) → Tasks
listable_tasks_filtered [] category namespace_tasks = []
listable_tasks_filtered ((name, definition) ∷ tasks) category namespace_tasks =
    let rest = listable_tasks_filtered tasks category namespace_tasks in
    if not definition.hidden && in_category category definition && in_namespace namespace_tasks name
    then (name, definition) ∷ rest
    else rest

unfoldable pub listable_tasks : Tasks → Option String → Tasks
listable_tasks tasks category = listable_tasks_filtered tasks category none
