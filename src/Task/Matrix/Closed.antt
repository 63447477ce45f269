-- ===== src/Task/Matrix/Closed.antt =====
-- crates/nxr-task/src/matrix.rs: the tasks of an expansion and their dependencies.
use nxr.Base.{
  ℕ, suc, ◌≡◌, true, ◌||◌, List, [], ◌∷◌, none, some, String, arith, Bool-cases, Option-cases, inl,
  inr,
}
use nxr.Base.Order.{string_ord, eqb, eqb_iff, eqb_self}
use nxr.Base.Set.{contains}
use nxr.Base.Map
use nxr.Base.Map.{get}
use nxr.Task.Schema.{TaskMatrix, TaskDefinition, Tasks}
use nxr.Task.Graph.Defs.{has_task}
use nxr.Task.Matrix.{
  Attrs, ok, ◌>>=◌, matrix_node_id, validate_matrix_attrs, entry_ids, validate_task_matrix,
  matrix_ids, Expanded, expand_entries, expand_task, expand_all,
}
use nxr.Task.Matrix.Ids.{bind-ok, Ids}

has-insert :
    (k j : String) (t : TaskDefinition) (m : Tasks)
    → has_task j (Map.insert k t m) ≡ (eqb j k || has_task j m)
has-insert k j t m = ground (arith, Map.get-insert k j t m)

has_kept :
    (k j : String) (t : TaskDefinition) (m : Tasks)
    → has_task j m ≡ true
    → has_task j (Map.insert k t m) ≡ true
has_kept k j t m h = ground (arith, h, has-insert k j t m)

has_new : (k : String) (t : TaskDefinition) (m : Tasks) → has_task k (Map.insert k t m) ≡ true
has_new k t m = ground (arith, eqb_self k, has-insert k k t m)

module _ (m : Ids) where
  entries_keep :
      (name : String) (d : TaskDefinition) (index : ℕ) (entries : List Attrs) (acc : Expanded)
      (k : String)
      → has_task k acc.0 ≡ true
      → has_task k (expand_entries name d m index entries acc).0 ≡ true
  unfolding expand_entries
  entries_keep name d index [] acc k h = h
  entries_keep name d index (attrs ∷ entries) (tasks, instances) k h =
      entries_keep name d (suc index) entries _ k (has_kept (matrix_node_id name index) k _ tasks h)

  task_keeps :
      (name : String) (d : TaskDefinition) (acc : Expanded) (k : String)
      → has_task k acc.0 ≡ true
      → has_task k (expand_task name d m acc).0 ≡ true
  unfolding expand_task
  task_keeps name d acc k h = elim (Option-cases d.matrix) [
    | inl e ↦ rw (e, expand_task) (has_kept name k _ acc.0 h)
    | inr (matrix, e) ↦ rw (e, expand_task) (entries_keep name d 0 matrix.include acc k h)
  ]

  all_keep :
      (tasks : Tasks) (acc : Expanded) (k : String)
      → has_task k acc.0 ≡ true
      → has_task k (expand_all tasks m acc).0 ≡ true
  unfolding expand_all
  all_keep [] acc k h = h
  all_keep ((name, d) ∷ tasks) acc k h =
      all_keep tasks (expand_task name d m acc) k (task_keeps name d acc k h)

  entries_cover :
      (name : String) (d : TaskDefinition) (index : ℕ) (entries : List Attrs) (acc : Expanded)
      (ids : List String) (k : String)
      → entry_ids name index entries ≡ ok ids
      → contains k ids ≡ true
      → has_task k (expand_entries name d m index entries acc).0 ≡ true
  unfolding expand_entries entry_ids
  entries_cover name d index [] acc ids k h c = absurd (ground (arith, h, c))
  entries_cover name d index (attrs ∷ entries) (tasks, instances) ids k h c =
      let (u, v, h') =
        bind-ok (validate_matrix_attrs name index attrs)
          (λ _.
            entry_ids name (suc index) entries >>= λ rest. ok (matrix_node_id name index ∷ rest))
          ids h in
      let (rest, r, h'') =
        bind-ok (entry_ids name (suc index) entries) (λ rest. ok (matrix_node_id name index ∷ rest))
          ids h' in
      let same : ids ≡ matrix_node_id name index ∷ rest = ground (arith, h'') in
      elim (Bool-cases (contains k rest)) [
        | inl i ↦ entries_cover name d (suc index) entries _ rest k r i
        | inr i ↦
            let here : k ≡ matrix_node_id name index =
              (eqb_iff k (matrix_node_id name index)).0 (ground (arith, same, c, i)) in
            rw here (
              entries_keep name d (suc index) entries _ (matrix_node_id name index)
                (has_new (matrix_node_id name index) _ tasks))
      ]

  -- The ids that a task becomes are tasks of the expansion.
  abbrev pub Covers : String → TaskDefinition → Expanded → Type 0
  Covers name d acc =
      (d.matrix ≡ none → has_task name acc.0 ≡ true)
      × ((matrix : TaskMatrix) (ids : List String) (k : String)
          → d.matrix ≡ some matrix
          → matrix_ids name matrix ≡ ok ids
          → contains k ids ≡ true
          → has_task k acc.0 ≡ true)

  task-Covers :
      (name : String) (d : TaskDefinition) (acc : Expanded)
      → Covers name d (expand_task name d m acc)
  unfolding expand_task matrix_ids
  task-Covers name d acc = (
    λ e. rw (e, expand_task) (has_new name _ acc.0),
    λ matrix ids k e h c.
        let (u, v, h') =
          bind-ok (validate_task_matrix name matrix) (λ _. entry_ids name 0 matrix.include) ids h in
        rw (e, expand_task) (entries_cover name d 0 matrix.include acc ids k h' c),
  )

  pub all-Covers :
      (tasks : Tasks) (acc : Expanded) (name : String) (d : TaskDefinition)
      → get name tasks ≡ some d
      → Covers name d (expand_all tasks m acc)
  unfolding expand_all get
  all-Covers [] acc name d g = cc
  all-Covers ((n, d') ∷ tasks) acc name d g = elim (Bool-cases (eqb name n)) [
    | inl e ↦
        let same : d ≡ d' = ground (arith, g, e) in
        let named : name ≡ n = (eqb_iff name n).0 e in
        let (plain, entries) = task-Covers n d' acc in
        let after = expand_task n d' m acc in
        rw (same, named)
          (
            λ w. all_keep tasks after n (plain w),
            λ matrix ids k w h c. all_keep tasks after k (entries matrix ids k w h c),
          )
    | inr e ↦ all-Covers tasks (expand_task n d' m acc) name d (ground (arith, g, e))
  ]
