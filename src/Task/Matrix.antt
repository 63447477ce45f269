-- ===== src/Task/Matrix.antt =====
-- crates/nxr-task/src/matrix.rs: tasks with a matrix become one task for each of its entries.
pub mod Ids
pub mod Closed
pub mod Standing
pub mod Instances
pub mod Expansion
use Prim.Native.String.{◌++◌ as str_append}
use nxr.Base.{
  ℕ, suc, ◌+◌, Bool, true, false, not, ◌&&◌, List, [], ◌∷◌, ◌++◌, Option, none, some, String, ltb,
  if◌then◌else◌,
}
use nxr.Base.Order.{string_ord, eqb}
use nxr.Base.Texts.{is_blank, ascii_uppercase, is_canonical_ident}
use nxr.Base.Decimal.{decimal}
use nxr.Base.Map
use nxr.Base.Map.{get}
use nxr.Task.Schema.{
  JsonValue, null, bool, number, string, array, object, TaskMatrix, TaskDefinition, Tasks,
  SchemaError, invalid_matrix,
}

abbrev pub Attrs : Type 0
Attrs = List (String × JsonValue)

pub record MatrixInstance : Type 0 where
  pub base_task : String
  pub attrs : Attrs

pub record MatrixExpansion : Type 0 where
  pub tasks : Tasks
  pub instances : List (String × MatrixInstance)
  pub instance_ids : List (String × List String)

pub data Result {ℓ} (A : Type ℓ) : Type ℓ where
  ok : A → Result A
  err : SchemaError → Result A

infixl 5 ◌>>=◌
abbrev pub ◌>>=◌ {ℓ κ} : {A : Type ℓ} {B : Type κ} → Result A → (A → Result B) → Result B
ok a >>= f = f a
err e >>= f = err e

unfoldable pub join : List String → String
join [] = ""
join (s ∷ rest) = str_append s (join rest)

abbrev pub matrix_env_prefix : String
matrix_env_prefix = "NXR_MATRIX_"

unfoldable pub matrix_env_name : String → String
matrix_env_name key = str_append matrix_env_prefix (ascii_uppercase key)

-- The keys of a map are sorted.
unfoldable pub matrix_attr_names : Attrs → List String
matrix_attr_names [] = []
matrix_attr_names ((key, value) ∷ attrs) = key ∷ matrix_attr_names attrs

unfoldable pub matrix_value_to_string : JsonValue → Option String
matrix_value_to_string (string text) = some text
matrix_value_to_string (bool flag) = some (if flag then "true" else "false")
matrix_value_to_string (number text) = some text
matrix_value_to_string null = none
matrix_value_to_string (array _) = none
matrix_value_to_string (object _) = none

unfoldable pub resolve_matrix_values : Attrs → List (String × String)
resolve_matrix_values [] = []
resolve_matrix_values ((key, value) ∷ attrs) = elim (matrix_value_to_string value) [
  | none ↦ resolve_matrix_values attrs
  | some normalized ↦ Map.insert key normalized (resolve_matrix_values attrs)
]

-- Later keys overwrite earlier ones, so the entries are inserted from the first.
unfoldable pub env_from : List (String × String) → List (String × String) → List (String × String)
env_from env [] = env
env_from env ((key, value) ∷ values) = env_from (Map.insert (matrix_env_name key) value env) values

unfoldable pub resolve_matrix_env : Attrs → List (String × String)
resolve_matrix_env attrs = env_from [] (resolve_matrix_values attrs)

unfoldable pub matrix_node_id : String → ℕ → String
matrix_node_id base index = str_append base (str_append "@" (decimal index))

unfoldable pub validate_task_matrix : String → TaskMatrix → Result (Unit {0})
validate_task_matrix task matrix = elim matrix.include [
  | [] ↦ err (invalid_matrix task "matrix.include must contain at least one entry")
  | _ ∷ _ ↦ ok tt
]

-- No key is blank, and no two are the same in upper case.
unfoldable pub validate_keys : String → ℕ → List (String × String) → Attrs → Result (Unit {0})
validate_keys task index seen [] = ok tt
validate_keys task index seen ((key, value) ∷ attrs) =
    let rest = validate_keys task index (Map.insert (ascii_uppercase key) key seen) attrs in
    if is_blank key
    then err (
        invalid_matrix task
          (join ("matrix.include[" ∷ decimal index ∷ "] key must not be empty" ∷ [])))
    else elim (get (ascii_uppercase key) seen) [
      | some existing ↦ err (
          invalid_matrix task (
            join (
              "matrix.include["
              ∷ decimal index
              ∷ "]."
              ∷ key
              ∷ ": key collides with `"
              ∷ existing
              ∷ "` after normalization to "
              ∷ matrix_env_prefix
              ∷ ascii_uppercase key
              ∷ [])))
      | none ↦ rest
    ]

unfoldable pub validate_values : String → ℕ → Attrs → Result (Unit {0})
validate_values task index [] = ok tt
validate_values task index ((key, value) ∷ attrs) =
    let at = join ("matrix.include[" ∷ decimal index ∷ "]." ∷ key ∷ []) in
    let rest = validate_values task index attrs in
    if is_canonical_ident key
    then elim (matrix_value_to_string value) [
      | none ↦
          err (invalid_matrix task (str_append at ": value must be a string, number, or boolean"))
      | some _ ↦ rest
    ]
    else err (invalid_matrix task (str_append at ": key must match [a-z][a-z0-9_]*"))

unfoldable pub validate_matrix_attrs : String → ℕ → Attrs → Result (Unit {0})
validate_matrix_attrs task index [] =
    err
      (invalid_matrix task (join ("matrix.include[" ∷ decimal index ∷ "] must not be empty" ∷ [])))
validate_matrix_attrs task index (attr ∷ attrs) =
    validate_keys task index [] (attr ∷ attrs) >>= λ _. validate_values task index (attr ∷ attrs)

-- The ids of the entries from `index` on, each entry being validated first.
unfoldable pub entry_ids : String → ℕ → List Attrs → Result (List String)
entry_ids name index [] = ok []
entry_ids name index (attrs ∷ entries) = do
  _ ← validate_matrix_attrs name index attrs
  ids ← entry_ids name (suc index) entries
  ok (matrix_node_id name index ∷ ids)

unfoldable pub matrix_ids : String → TaskMatrix → Result (List String)
matrix_ids name matrix = validate_task_matrix name matrix >>= λ _. entry_ids name 0 matrix.include

unfoldable pub collect_ids : Tasks → Result (List (String × List String))
collect_ids [] = ok []
collect_ids ((name, definition) ∷ tasks) = elim definition.matrix [
  | none ↦ collect_ids tasks
  | some matrix ↦ do
    ids ← matrix_ids name matrix
    rest ← collect_ids tasks
    ok (Map.insert name ids rest)
]

unfoldable pub expand_depends_on : List String → List (String × List String) → List String
expand_depends_on [] instance_ids = []
expand_depends_on (dep ∷ deps) instance_ids =
    let rest = expand_depends_on deps instance_ids in
    elim (get dep instance_ids) [ none ↦ dep ∷ rest | some ids ↦ ids ++ rest ]

abbrev pub Expanded : Type 0
Expanded = Tasks × List (String × MatrixInstance)

-- The entries of a task from `index` on.
unfoldable pub expand_entries :
    String → TaskDefinition → List (String × List String) → ℕ → List Attrs → Expanded → Expanded
expand_entries name definition instance_ids index [] acc = acc
expand_entries name definition instance_ids index (attrs ∷ entries) (tasks, instances) =
    let id = matrix_node_id name index in
    let instance_def = record definition {
      matrix = none;
      depends_on = expand_depends_on definition.depends_on instance_ids;
    } in
    expand_entries name definition instance_ids (suc index) entries (
      Map.insert id instance_def tasks,
      Map.insert id (record { base_task = name; attrs = attrs }) instances,
    )

unfoldable pub expand_task :
    String → TaskDefinition → List (String × List String) → Expanded → Expanded
expand_task name definition instance_ids acc = elim definition.matrix [
  | some matrix ↦ expand_entries name definition instance_ids 0 matrix.include acc
  | none ↦ (
    Map.insert name
        (record definition { depends_on = expand_depends_on definition.depends_on instance_ids })
        acc.0,
    acc.1,
  )
]

unfoldable pub expand_all : Tasks → List (String × List String) → Expanded → Expanded
expand_all [] instance_ids acc = acc
expand_all ((name, definition) ∷ tasks) instance_ids acc =
    expand_all tasks instance_ids (expand_task name definition instance_ids acc)

unfoldable pub expand_matrix_tasks : Tasks → Result MatrixExpansion
expand_matrix_tasks tasks = collect_ids tasks >>= λ instance_ids.
    let expanded = expand_all tasks instance_ids ([], []) in
    ok (record { tasks = expanded.0; instances = expanded.1; instance_ids = instance_ids })

unfoldable pub expand_matrix_roots : List String → MatrixExpansion → List String
expand_matrix_roots roots expansion = expand_depends_on roots expansion.instance_ids

-- An entry's id that is also a declared task.
unfoldable pub collision_at : Tasks → String → ℕ → List Attrs → Result (Unit {0})
collision_at tasks name index [] = ok tt
collision_at tasks name index (attrs ∷ entries) =
    let id = matrix_node_id name index in
    let rest = collision_at tasks name (suc index) entries in
    elim (get id tasks) [
      | none ↦ rest
      | some _ ↦
          if eqb id name
          then rest
          else err (
              invalid_matrix name (
                join (
                  "expanded instance id `" ∷ id ∷ "` collides with declared task name `" ∷ id ∷ "`"
                  ∷ [])))
    ]

unfoldable pub collisions_in : Tasks → Tasks → Result (Unit {0})
collisions_in tasks [] = ok tt
collisions_in tasks ((name, definition) ∷ rest) = elim definition.matrix [
  | none ↦ collisions_in tasks rest
  | some matrix ↦ collision_at tasks name 0 matrix.include >>= λ _. collisions_in tasks rest
]

unfoldable pub validate_matrix_instance_collisions : Tasks → Result (Unit {0})
validate_matrix_instance_collisions tasks = collisions_in tasks tasks
