-- ===== src/Task/Matrix/Instances.antt =====
-- crates/nxr-task/src/matrix.rs: where the tasks of an expansion come from.
use nxr.Base.{
  ℕ, suc, ◌+◌, ◌≡◌, ap, ◌∙◌, ◌⊎◌, false, List, [], ◌∷◌, none, some, String, arith, Bool-cases,
  Option-cases, inl, inr,
}
use nxr.Base.Order.{string_ord, eqb, eqb_iff, eqb_self}
use nxr.Base.Map
use nxr.Base.Map.{get}
use nxr.Task.Schema.{TaskMatrix, TaskDefinition, Tasks}
use nxr.Task.Matrix.{
  Attrs, MatrixInstance, matrix_node_id, expand_depends_on, Expanded, expand_entries, expand_task,
  expand_all,
}
use nxr.Task.Matrix.Standing.{entry_at, entry_name, rewired}
use nxr.Task.Matrix.Ids.{Ids}

abbrev pub Instances : Type 0
Instances = List (String × MatrixInstance)

-- A task of the expansion is a declared one without a matrix, under its own name, or an entry of a
-- declared one, under the entry's name and with the entry's attributes. But for the matrix and the
-- dependencies it is the declared task, and its dependencies are the names that stand for the declared ones.
pub record IsInstance (tasks : Tasks) (instances : Instances) (k : String) (t : TaskDefinition)
    : Type 0 where
  pub base : String
  pub definition : TaskDefinition
  pub found : get base tasks ≡ some definition
  pub task_eq :
      t ≡ record definition { matrix = none; depends_on = rewired tasks definition.depends_on }
  pub named :
      ((definition.matrix ≡ none) × (k ≡ base))
      ⊎ ((matrix : TaskMatrix) × (index : ℕ) × (attrs : Attrs) × (definition.matrix ≡ some matrix)
          × (entry_at matrix.include index ≡ some attrs)
          × (k ≡ entry_name base index)
          × (get k instances ≡ some (record { base_task = base; attrs = attrs })))

abbrev pub AllInstances : Tasks → Expanded → Type 0
AllInstances tasks acc =
    (k : String) (t : TaskDefinition) → get k acc.0 ≡ some t → IsInstance tasks acc.1 k t

module _ (whole : Tasks) (m : Ids)
    (deps : (base : String) (d : TaskDefinition)
      → get base whole ≡ some d
      → expand_depends_on d.depends_on m ≡ rewired whole d.depends_on) where
  kept-IsInstance :
      (j k : String) (v : MatrixInstance) (t : TaskDefinition) (instances : Instances)
      → eqb k j ≡ false
      → IsInstance whole instances k t
      → IsInstance whole (Map.insert j v instances) k t
  kept-IsInstance j k v t instances e i = record {
    base = i.base;
    definition = i.definition;
    found = i.found;
    task_eq = i.task_eq;
    named = elim i.named [
      | inl plain ↦ inl plain
      | inr (matrix, index, attrs, w, at, here, got) ↦ inr (
        matrix,
        index,
        attrs,
        w,
        at,
        here,
        ground (arith, got, e, Map.get-insert j k v instances),
      )
    ];
  }

  plain-AllInstances :
      (name : String) (d : TaskDefinition) (acc : Expanded)
      → get name whole ≡ some d
      → d.matrix ≡ none
      → AllInstances whole acc
      → AllInstances whole (
        Map.insert name (record d { depends_on = expand_depends_on d.depends_on m }) acc.0,
        acc.1,
      )
  plain-AllInstances name d acc g e a j u h =
      let new : TaskDefinition = record d { depends_on = expand_depends_on d.depends_on m } in
      elim (Bool-cases (eqb j name)) [
        | inl n ↦
            let same : u ≡ new = ground (arith, h, n, Map.get-insert name j new acc.0) in
            record {
              base = name;
              definition = d;
              found = g;
              task_eq =
                  same
                  ∙ ap
                      (λ mx. record d {
                        matrix = mx;
                        depends_on = expand_depends_on d.depends_on m;
                      })
                      e
                  ∙ ap (λ ds. record d { matrix = none; depends_on = ds }) (deps name d g);
              named = inl (e, (eqb_iff j name).0 n);
            }
        | inr n ↦ a j u (ground (arith, h, n, Map.get-insert name j new acc.0))
      ]

  entry-AllInstances :
      (name : String) (d : TaskDefinition) (matrix : TaskMatrix) (index : ℕ) (attrs : Attrs)
      (acc : Expanded)
      → get name whole ≡ some d
      → d.matrix ≡ some matrix
      → entry_at matrix.include index ≡ some attrs
      → AllInstances whole acc
      → AllInstances whole (
        Map.insert
            (matrix_node_id name index)
            (record d { matrix = none; depends_on = expand_depends_on d.depends_on m })
            acc.0,
        Map.insert (matrix_node_id name index) (record { base_task = name; attrs = attrs }) acc.1,
      )
  unfolding matrix_node_id
  entry-AllInstances name d matrix index attrs acc g e at a j u h =
      let id = entry_name name index in
      let instance_of : MatrixInstance = record { base_task = name; attrs = attrs } in
      let new : TaskDefinition = record d {
        matrix = none;
        depends_on = expand_depends_on d.depends_on m;
      } in
      elim (Bool-cases (eqb j id)) [
        | inl n ↦
            let same : u ≡ new = ground (arith, h, n, Map.get-insert id j new acc.0) in
            record {
              base = name;
              definition = d;
              found = g;
              task_eq =
                  same ∙ ap (λ ds. record d { matrix = none; depends_on = ds }) (deps name d g);
              named = inr (
                matrix,
                index,
                attrs,
                e,
                at,
                (eqb_iff j id).0 n,
                ground (arith, n, Map.get-insert id j instance_of acc.1),
              );
            }
        | inr n ↦
            kept-IsInstance id j instance_of u acc.1 n
              (a j u (ground (arith, h, n, Map.get-insert id j new acc.0)))
      ]

  entries-AllInstances :
      (name : String) (d : TaskDefinition) (matrix : TaskMatrix) (index : ℕ) (entries : List Attrs)
      (acc : Expanded)
      → get name whole ≡ some d
      → d.matrix ≡ some matrix
      → ((i : ℕ) → entry_at matrix.include (index + i) ≡ entry_at entries i)
      → AllInstances whole acc
      → AllInstances whole (expand_entries name d m index entries acc)
  unfolding expand_entries
  entries-AllInstances name d matrix index [] acc g e at a = a
  entries-AllInstances name d matrix index (attrs ∷ entries) acc g e at a =
      let here : entry_at matrix.include index ≡ some attrs =
        ap (entry_at matrix.include) (omega arith) ∙ at 0 in
      entries-AllInstances name d matrix (suc index) entries _ g e
        (λ i. ap (entry_at matrix.include) (omega arith) ∙ at (suc i))
        (entry-AllInstances name d matrix index attrs acc g e here a)

  task-AllInstances :
      (name : String) (d : TaskDefinition) (acc : Expanded)
      → get name whole ≡ some d
      → AllInstances whole acc
      → AllInstances whole (expand_task name d m acc)
  unfolding expand_task
  task-AllInstances name d acc g a = elim (Option-cases d.matrix) [
    | inl e ↦ rw (e, expand_task) (plain-AllInstances name d acc g e a)
    | inr (matrix, e) ↦
        rw (e, expand_task)
          (entries-AllInstances name d matrix 0 matrix.include acc g e
            (λ i. ap (entry_at matrix.include) (omega arith)) a)
  ]

  pub all-AllInstances :
      (tasks : Tasks) (acc : Expanded)
      → Map.IsSorted tasks
      → ((n : String) (d : TaskDefinition) → get n tasks ≡ some d → get n whole ≡ some d)
      → AllInstances whole acc
      → AllInstances whole (expand_all tasks m acc)
  unfolding expand_all get
  all-AllInstances [] acc s w a = a
  all-AllInstances ((n, d) ∷ tasks) acc s w a =
      all-AllInstances tasks (expand_task n d m acc) s.1
        (λ k t g. w k t (ground (arith, g, eqb_iff k n, Map.Before-get n tasks s.0)))
        (task-AllInstances n d acc (w n d (ground (arith, eqb_self n))) a)
