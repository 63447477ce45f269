-- ===== src/Task/Matrix/Standing.antt =====
-- crates/nxr-task/src/matrix.rs: the tasks that stand for a task in an expansion, read off the document.
use Prim.Native.String.{◌++◌ as str_append}
use nxr.Base.{
  ℕ, zero, suc, ◌≡◌, refl, true, List, [], ◌∷◌, ◌++◌, Option, none, some, String, arith, inl, inr,
}
use nxr.Base.Order.{string_ord, eqb_self}
use nxr.Base.Set.{contains}
use nxr.Base.Map
use nxr.Base.Map.{get}
use nxr.Base.Decimal.{decimal}
use nxr.Task.Schema.{TaskMatrix, TaskDefinition, Tasks}
use nxr.Task.Matrix.{
  Attrs, ok, ◌>>=◌, matrix_node_id, validate_matrix_attrs, validate_task_matrix, entry_ids,
  matrix_ids, collect_ids, expand_depends_on,
}
use nxr.Task.Matrix.Ids.{bind-ok, Ids, collect_ids-HasIds}

-- The name of an entry, and the names of the entries from `index` on.
abbrev pub entry_name : String → ℕ → String
entry_name name index = str_append name (str_append "@" (decimal index))

abbrev pub entry_names : String → ℕ → List Attrs → List String
entry_names name index [] = []
entry_names name index (attrs ∷ entries) =
    entry_name name index ∷ entry_names name (suc index) entries

abbrev pub entry_at : List Attrs → ℕ → Option Attrs
entry_at [] index = none
entry_at (attrs ∷ entries) zero = some attrs
entry_at (attrs ∷ entries) (suc index) = entry_at entries index

-- A task with a matrix is replaced by its entries, and any other name stands for itself.
abbrev pub names_for : String → Option TaskMatrix → List String
names_for name none = name ∷ []
names_for name (some matrix) = entry_names name 0 matrix.include

abbrev pub declared_matrix : Option TaskDefinition → Option TaskMatrix
declared_matrix none = none
declared_matrix (some d) = d.matrix

abbrev pub stand_ins : Tasks → String → List String
stand_ins tasks name = names_for name (declared_matrix (get name tasks))

abbrev pub rewired : Tasks → List String → List String
rewired tasks [] = []
rewired tasks (dep ∷ deps) = stand_ins tasks dep ++ rewired tasks deps

pub entry_ids-names :
    (name : String) (index : ℕ) (entries : List Attrs) (ids : List String)
    → entry_ids name index entries ≡ ok ids
    → ids ≡ entry_names name index entries
unfolding entry_ids matrix_node_id
entry_ids-names name index [] ids h = ground (arith, h)
entry_ids-names name index (attrs ∷ entries) ids h =
    let (u, v, h') =
      bind-ok (validate_matrix_attrs name index attrs)
        (λ _. entry_ids name (suc index) entries >>= λ rest. ok (matrix_node_id name index ∷ rest))
        ids h in
    let (rest, r, h'') =
      bind-ok (entry_ids name (suc index) entries) (λ rest. ok (matrix_node_id name index ∷ rest))
        ids h' in
    ground (arith, h'', entry_ids-names name (suc index) entries rest r)

pub matrix_ids-names :
    (name : String) (matrix : TaskMatrix) (ids : List String)
    → matrix_ids name matrix ≡ ok ids
    → ids ≡ entry_names name 0 matrix.include
unfolding matrix_ids
matrix_ids-names name matrix ids h =
    let (u, v, h') =
      bind-ok (validate_task_matrix name matrix) (λ _. entry_ids name 0 matrix.include) ids h in
    entry_ids-names name 0 matrix.include ids h'

-- Where the dependencies are declared, rewriting them puts the names that stand for each in its place.
pub expand_depends_on-rewired :
    (tasks : Tasks) (m : Ids) (deps : List String)
    → Map.IsSorted tasks
    → collect_ids tasks ≡ ok m
    → ((d : String) → contains d deps ≡ true → (t : TaskDefinition) × (get d tasks ≡ some t))
    → expand_depends_on deps m ≡ rewired tasks deps
unfolding expand_depends_on
expand_depends_on-rewired tasks m [] s i h = refl
expand_depends_on-rewired tasks m (dep ∷ deps) s i h =
    let rest = expand_depends_on-rewired tasks m deps s i (λ d c. h d (ground (arith, c))) in
    let (t, g) = h dep (ground (arith, eqb_self dep)) in
    elim (collect_ids-HasIds tasks m dep t s i g) [
      | inl (plain, absent) ↦ ground (arith, absent, g, plain, rest)
      | inr (matrix, ids, e, w, found) ↦
          ground (arith, found, g, e, rest, matrix_ids-names dep matrix ids w)
    ]
