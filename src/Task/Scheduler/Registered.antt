-- ===== src/Task/Scheduler/Registered.antt =====
-- crates/nxr-task/src/scheduler.rs: the counts and the ready set that `new` starts from.
use nxr.Base.{
  ℕ, ◌≡◌, refl, ◌∙◌, Bool, true, false, ◌||◌, List, [], ◌∷◌, none, some, String, arith, length,
  if◌then◌else◌, ◌==◌, Bool-cases, ◌⊎◌, inl, inr,
}
use nxr.Base.Order.{string_ord, eqb, eqb_iff, eqb_self, lt-ne}
use nxr.Base.Set
use nxr.Base.Set.{contains}
use nxr.Base.Map
use nxr.Base.Map.{get}
use nxr.Task.Rows.{Dependents, degree, IsLinked}
use nxr.Task.Resources.{ResourceLimits}
use nxr.Task.Plan.{FailurePolicy, PlanNode}
use nxr.Task.Scheduler.State.{Scheduler, pending, ready}
use nxr.Task.Scheduler.Start.{register, register_all, link_all, seed, empty_scheduler, build}
use nxr.Task.Scheduler.Unmet.{States, is_held}
use nxr.Task.Scheduler.Order.{IsOrdered, Ordered}
use nxr.Task.Scheduler.Release.{ready-IsOrdered}
use nxr.Task.Scheduler.Links.{
  listed, unmet-le-degree, degree-or_default, or_default-IsLinked, link_all_lem,
}

abbrev pub has_id : String → List PlanNode → Bool
has_id n [] = false
has_id n (x ∷ xs) = eqb n x.id || has_id n xs

-- No two nodes of a plan have one id.
abbrev pub DistinctIds : List PlanNode → Type 0
DistinctIds [] = Unit
DistinctIds (x ∷ xs) = (has_id x.id xs ≡ false) × DistinctIds xs

listed-absent : (n : String) (nodes : List PlanNode) → has_id n nodes ≡ false → listed n nodes ≡ 0
unfolding listed
listed-absent n [] h = refl
listed-absent n (x ∷ xs) h = ground (arith, listed-absent n xs)

-- The count of a node is the number of dependencies that it lists.
register_all-counts :
    (n : String) (nodes : List PlanNode) (s : Scheduler)
    → DistinctIds nodes
    → get n (register_all s nodes).remaining_deps
      ≡ (if has_id n nodes then some (listed n nodes) else get n s.remaining_deps)
unfolding register_all register listed
register_all-counts n [] s h = refl
register_all-counts n (x ∷ xs) s h = ground (
  arith,
  register_all-counts n xs (register s x) h.1,
  Map.get-insert x.id n (length x.depends_on) s.remaining_deps,
  listed-absent n xs,
  eqb_iff n x.id,
)

-- Before `seed` every node is pending and has a count, no row has an entry, and the tables ascend.
record IsRegistered (s : Scheduler) : Type 0 where
  held : (n : String) → (is_held (get n s.states) ≡ true) ⊎ (get n s.states ≡ none)
  same : (n : String) → get n s.states ≡ none → get n s.remaining_deps ≡ none
  sorted : Map.IsSorted s.remaining_deps
  linked : IsLinked s.dependents
  empty : (n : String) → degree n s.dependents ≡ 0

register-IsRegistered :
    (s : Scheduler) (x : PlanNode) → IsRegistered s → IsRegistered (register s x)
unfolding register
register-IsRegistered s x v = record {
  held = λ n. ground (arith, v.held n, Map.get-insert x.id n pending s.states);
  same = λ n h. ground (
    arith,
    v.same n,
    Map.get-insert x.id n pending s.states,
    Map.get-insert x.id n (length x.depends_on) s.remaining_deps,
  );
  sorted = Map.insert-IsSorted x.id (length x.depends_on) s.remaining_deps v.sorted;
  linked = or_default-IsLinked x.id s.dependents v.linked;
  empty = λ n. ground (arith, v.empty n, degree-or_default n x.id s.dependents v.linked);
}

register_all-IsRegistered :
    (nodes : List PlanNode) (s : Scheduler) → IsRegistered s → IsRegistered (register_all s nodes)
unfolding register_all
register_all-IsRegistered [] s v = v
register_all-IsRegistered (x ∷ xs) s v =
    register_all-IsRegistered xs (register s x) (register-IsRegistered s x v)

-- The entries still to be seeded are pending, with the counts of the table.
abbrev Unseeded : States → List (String × ℕ) → List (String × ℕ) → Type 0
Unseeded st rem [] = Unit
Unseeded st rem ((id, deg) ∷ rest) =
    (is_held (get id st) ≡ true) × (get id rem ≡ some deg) × Unseeded st rem rest

Unseeded-insert :
    (id : String) (st : States) (rem rest : List (String × ℕ))
    → Map.Before id rest
    → Unseeded st rem rest
    → Unseeded (Map.insert id ready st) rem rest
Unseeded-insert id st rem [] b u = tt
Unseeded-insert id st rem ((j, deg) ∷ rest) b u = (
  ground (arith, u.0, Map.get-insert id j ready st, eqb_iff j id, eqb_iff id j, lt-ne id j b.0),
  u.1,
  Unseeded-insert id st rem rest b.1 u.2,
)

seed-Ordered :
    (rest : List (String × ℕ)) (s : Scheduler)
    → Map.IsSorted rest
    → Unseeded s.states s.remaining_deps rest
    → Ordered s []
    → Ordered (seed s rest) []
unfolding seed
seed-Ordered [] s so u v = v
seed-Ordered ((id, deg) ∷ rest) s so u v = elim (Bool-cases (deg == 0)) [
  | inl e ↦
      let t = record s {
        ready_set = Set.insert id s.ready_set;
        states = Map.insert id ready s.states;
      } in
      rw (e, seed)
        (seed-Ordered rest t so.1 (Unseeded-insert id s.states s.remaining_deps rest so.0 u.2)
          (ready-IsOrdered s.states s.remaining_deps s.dependents id [] u.0 (ground arith) v))
  | inr e ↦ rw (e, seed) (seed-Ordered rest s so.1 u.2 v)
]

entries-Unseeded :
    (st : States) (rem rest : List (String × ℕ))
    → Map.IsSorted rest
    → ((id : String) (deg : ℕ)
        → get id rest ≡ some deg
        → (is_held (get id st) ≡ true) × (get id rem ≡ some deg))
    → Unseeded st rem rest
unfolding get
entries-Unseeded st rem [] so h = tt
entries-Unseeded st rem ((id, deg) ∷ rest) so h =
    let first = h id deg (ground (arith, eqb_self id)) in
    (
      first.0,
      first.1,
      entries-Unseeded st rem rest so.1
          (λ j d e. h j d (ground (arith, eqb_iff j id, Map.Before-get id rest so.0))),
    )

blank-IsRegistered :
    (policy : FailurePolicy) (jobs : ℕ) (limits : ResourceLimits)
    → IsRegistered (empty_scheduler policy jobs limits)
unfolding empty_scheduler get degree
blank-IsRegistered policy jobs limits = record {
  held = λ n. inr refl;
  same = λ n h. refl;
  sorted = tt;
  linked = record { rows = tt; row = λ d. tt };
  empty = λ n. refl;
}

seed-dependents :
    (rest : List (String × ℕ)) (s : Scheduler) → (seed s rest).dependents ≡ s.dependents
unfolding seed
seed-dependents [] s = refl
seed-dependents ((id, deg) ∷ rest) s =
    seed-dependents rest (
      if deg == 0
      then record s { ready_set = Set.insert id s.ready_set; states = Map.insert id ready s.states }
      else s)
    ∙ ground arith

module _ (policy : FailurePolicy) (jobs : ℕ) (limits : ResourceLimits) (nodes : List PlanNode) where
  abbrev registered : Scheduler
  registered = register_all (empty_scheduler policy jobs limits) nodes

  abbrev table : Dependents
  table = link_all nodes registered.dependents

  registered-IsRegistered : IsRegistered registered
  registered-IsRegistered =
      register_all-IsRegistered nodes (empty_scheduler policy jobs limits)
        (blank-IsRegistered policy jobs limits)

  blank-count :
      (n : String)
      → DistinctIds nodes
      → get n registered.remaining_deps ≡ (if has_id n nodes then some (listed n nodes) else none)
  unfolding empty_scheduler get
  blank-count n h = register_all-counts n nodes (empty_scheduler policy jobs limits) h

  registered-Ordered :
      DistinctIds nodes → IsOrdered registered.states registered.remaining_deps table []
  registered-Ordered h =
      let v = registered-IsRegistered in
      record {
        met = λ n d r c. ground (arith, v.held n);
        counted = λ n k hn e. ground (
          arith,
          blank-count n h,
          v.empty n,
          unmet-le-degree n registered.states table,
          (link_all_lem n nodes registered.dependents v.linked).1,
        );
      }

  registered-Unseeded :
      Unseeded registered.states registered.remaining_deps registered.remaining_deps
  registered-Unseeded =
      let v = registered-IsRegistered in
      entries-Unseeded registered.states registered.remaining_deps registered.remaining_deps
        v.sorted (λ id deg e. (ground (arith, v.held id, v.same id), e))

  -- The rows of `build` are those of `link_all`, and no node is ready with a dependency open.
  pub build-Ordered : DistinctIds nodes → Ordered (build policy jobs limits nodes) []
  unfolding build
  build-Ordered h =
      let v = registered-IsRegistered in
      seed-Ordered registered.remaining_deps (record registered { dependents = table }) v.sorted
        registered-Unseeded (registered-Ordered h)

  pub build-dependents : (build policy jobs limits nodes).dependents ≡ table
  unfolding build
  build-dependents =
      seed-dependents registered.remaining_deps (record registered { dependents = table })

  pub table-IsLinked : IsLinked table
  table-IsLinked = (link_all_lem "" nodes registered.dependents registered-IsRegistered.linked).0
