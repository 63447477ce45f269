-- ===== src/Task/Matrix/Expansion.antt =====
-- crates/nxr-task/src/matrix.rs: what an expansion is.
use nxr.Base.{◌≡◌, ap, true, List, [], ◌∷◌, some, String, arith, Bool-cases, Option-cases, inl, inr}
use nxr.Base.Order.{string_ord, eqb_iff, eqb_self}
use nxr.Base.Set.{contains}
use nxr.Base.Map
use nxr.Base.Map.{get}
use nxr.Task.Schema.{TaskDefinition, Tasks}
use nxr.Task.Graph.Defs.{has_task}
use nxr.Task.Graph.Expand.{depends_on, contains-append}
use nxr.Task.Matrix.{
  MatrixExpansion, ok, collect_ids, expand_all, expand_matrix_tasks, expand_matrix_roots,
}
use nxr.Task.Matrix.Ids.{bind-ok, Ids, collect_ids-HasIds}
use nxr.Task.Matrix.Closed.{all-Covers}
use nxr.Task.Matrix.Standing.{stand_ins, rewired, matrix_ids-names, expand_depends_on-rewired}
use nxr.Task.Matrix.Instances.{IsInstance, all-AllInstances}

declared_deps :
    (tasks : Tasks) (base : String) (d : TaskDefinition)
    → ((k e : String) → contains e (depends_on tasks k) ≡ true → has_task e tasks ≡ true)
    → get base tasks ≡ some d
    → (e : String) → contains e d.depends_on ≡ true
    → has_task e tasks ≡ true
declared_deps tasks base d c g e w = c base e (ground (arith, w, g))

found_task :
    (tasks : Tasks) (e : String)
    → has_task e tasks ≡ true
    → (t : TaskDefinition) × (get e tasks ≡ some t)
found_task tasks e w = elim (Option-cases (get e tasks)) [
  | inl g ↦ absurd (ground (arith, w, g))
  | inr (t, g) ↦ (t, g)
]

-- The names that stand for a declared task are tasks of the expansion.
covered :
    (tasks : Tasks) (m : Ids) (base n : String)
    → Map.IsSorted tasks
    → collect_ids tasks ≡ ok m
    → has_task base tasks ≡ true
    → contains n (stand_ins tasks base) ≡ true
    → has_task n (expand_all tasks m ([], [])).0 ≡ true
covered tasks m base n s i w c =
    let (t, g) = found_task tasks base w in
    let (plain, entries) = all-Covers m tasks ([], []) base t g in
    elim (collect_ids-HasIds tasks m base t s i g) [
      | inl (e, absent) ↦
          let here : n ≡ base = ground (arith, c, g, e, eqb_iff n base) in rw here (plain e)
      | inr (matrix, ids, e, k, found) ↦
          let names = matrix_ids-names base matrix ids k in
          entries matrix ids n e k (ground (arith, c, g, e, names))
    ]

rewired_present :
    (tasks : Tasks) (m : Ids) (deps : List String) (n : String)
    → Map.IsSorted tasks
    → collect_ids tasks ≡ ok m
    → ((e : String) → contains e deps ≡ true → has_task e tasks ≡ true)
    → contains n (rewired tasks deps) ≡ true
    → has_task n (expand_all tasks m ([], [])).0 ≡ true
rewired_present tasks m [] n s i w c = cc
rewired_present tasks m (dep ∷ deps) n s i w c =
    elim (Bool-cases (contains n (rewired tasks deps))) [
      | inl r ↦ rewired_present tasks m deps n s i (λ e j. w e (ground (arith, j))) r
      | inr r ↦
          covered tasks m dep n s i (w dep (ground (arith, eqb_self dep)))
            (ground (arith, c, r, contains-append n (stand_ins tasks dep) (rewired tasks deps)))
    ]

nothing_found : (k : String) (t : TaskDefinition) → get {V = TaskDefinition} k [] ≡ some t → ⊥
unfolding get
nothing_found k t g = cc

-- What expanding the matrices of well-formed tasks gives.
pub record IsExpansion (tasks : Tasks) (roots : List String) (x : MatrixExpansion) : Type 0 where
  pub instances :
      (k : String) (t : TaskDefinition) → get k x.tasks ≡ some t → IsInstance tasks x.instances k t
  pub complete :
      (base n : String)
      → has_task base tasks ≡ true
      → contains n (stand_ins tasks base) ≡ true
      → has_task n x.tasks ≡ true
  pub closed : (k d : String) → contains d (depends_on x.tasks k) ≡ true → has_task d x.tasks ≡ true
  pub roots_eq : expand_matrix_roots roots x ≡ rewired tasks roots
  pub rooted :
      (d : String) → contains d (expand_matrix_roots roots x) ≡ true → has_task d x.tasks ≡ true

-- Where every dependency is declared and the roots are, in sorted tasks: each task of the expansion is a
-- declared one without a matrix, under its name, or an entry of a declared one, under the name
-- `task@index` and with the attributes of that entry; it is the declared task in all but the matrix and
-- the dependencies, and these are, in their order, the names that stand for the declared ones: the names
-- of all entries for a task with a matrix, the task itself for another. All names that stand for a
-- declared task are tasks of the expansion, the dependencies of its tasks are, and the expanded roots are
-- and are the names that stand for the roots.
pub expand_matrix_tasks-IsExpansion :
    (tasks : Tasks) (roots : List String) (x : MatrixExpansion)
    → Map.IsSorted tasks
    → ((k d : String) → contains d (depends_on tasks k) ≡ true → has_task d tasks ≡ true)
    → ((d : String) → contains d roots ≡ true → has_task d tasks ≡ true)
    → expand_matrix_tasks tasks ≡ ok x
    → IsExpansion tasks roots x
unfolding expand_matrix_tasks expand_matrix_roots
expand_matrix_tasks-IsExpansion tasks roots x s c r h =
    let (m, i, h') =
      bind-ok (collect_ids tasks)
        (λ m. ok (record {
          tasks = (expand_all tasks m ([], [])).0;
          instances = (expand_all tasks m ([], [])).1;
          instance_ids = m;
        }))
        x h in
    let same : x ≡ record {
      tasks = (expand_all tasks m ([], [])).0;
      instances = (expand_all tasks m ([], [])).1;
      instance_ids = m;
    } =
      ground (arith, h') in
    let deps = λ (base : String) (d : TaskDefinition) (g : get base tasks ≡ some d).
      expand_depends_on-rewired tasks m d.depends_on s i
        (λ e w. found_task tasks e (declared_deps tasks base d c g e w)) in
    let all =
      all-AllInstances tasks m deps tasks ([], []) s (λ n d g. g)
        (λ k t g. absurd (nothing_found k t g)) in
    let roots_eq =
      expand_depends_on-rewired tasks m roots s i (λ e w. found_task tasks e (r e w)) in
    rw same (record {
      instances = all;
      complete = λ base n w j. covered tasks m base n s i w j;
      closed = λ k d j. elim (Option-cases (get k (expand_all tasks m ([], [])).0)) [
        | inl g ↦ absurd (ground (arith, j, g))
        | inr (t, g) ↦
            let v = all k t g in
            rewired_present tasks m v.definition.depends_on d s i
              (declared_deps tasks v.base v.definition c v.found)
              (ground (arith, j, g, ap (λ u. contains d u.depends_on) v.task_eq))
      ];
      roots_eq = roots_eq;
      rooted = λ d j.
          rewired_present tasks m roots d s i r (ground (arith, j, ap (contains d) roots_eq));
    })
