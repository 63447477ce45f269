-- ===== src/Task/Graph/Expand.antt =====
-- crates/nxr-task/src/graph.rs: one node of the worklist of reachable tasks.
use mathlib.Core.List.{reverse, reverse_aux}
use nxr.Base.{
  ℕ, ◌+◌, ◌≤◌, ◌≡◌, refl, true, false, ◌||◌, List, [], ◌∷◌, ◌++◌, none, some, String, arith, length,
  if◌then◌else◌, Bool-cases, Option-cases, ◌⊎◌, inl, inr,
}
use nxr.Base.Order.{string_ord, eqb_iff, lt-ne}
use nxr.Base.Set
use nxr.Base.Set.{contains}
use nxr.Base.Map
use nxr.Base.Map.{get}
use nxr.Task.Schema.{TaskDefinition, Tasks}
use nxr.Task.Graph.Defs.{ok, has_task, undefined_in, push_deps, expand, count_deps}

abbrev pub depends_on : Tasks → String → List String
depends_on tasks name = elim (get name tasks) [ none ↦ [] | some task ↦ task.depends_on ]

pub contains-reverse_aux :
    (n : String) (xs ys : List String)
    → contains n (reverse_aux xs ys) ≡ (contains n xs || contains n ys)
contains-reverse_aux n [] ys = refl
contains-reverse_aux n (x ∷ xs) ys = ground (arith, contains-reverse_aux n xs (x ∷ ys))

pub length-reverse_aux : (xs ys : List String) → length (reverse_aux xs ys) ≡ length xs + length ys
length-reverse_aux [] ys = ground arith
length-reverse_aux (x ∷ xs) ys = ground (arith, length-reverse_aux xs (x ∷ ys))

pub contains-append :
    (n : String) (xs ys : List String) → contains n (xs ++ ys) ≡ (contains n xs || contains n ys)
contains-append n [] ys = refl
contains-append n (x ∷ xs) ys = ground (arith, contains-append n xs ys)

pub undefined_in-none :
    (tasks : Tasks) (deps : List String) (d : String)
    → undefined_in tasks deps ≡ none
    → contains d deps ≡ true
    → has_task d tasks ≡ true
unfolding undefined_in
undefined_in-none tasks [] d h c = cc
undefined_in-none tasks (e ∷ deps) d h c =
    ground (arith, eqb_iff d e, undefined_in-none tasks deps d)

-- What the expansion of a node that was not reached before does.
pub record Expanded (tasks : Tasks) (name : String) (stack reachable : List String)
    (next : List String × List String) : Type 0 where
  pub fresh : contains name reachable ≡ false
  pub task : TaskDefinition
  pub found : get name tasks ≡ some task
  pub defined : undefined_in tasks task.depends_on ≡ none
  pub pushed : next ≡ (reverse task.depends_on ++ stack, Set.insert name reachable)

pub expand-cases :
    (tasks : Tasks) (name : String) (stack reachable : List String)
    (next : List String × List String)
    → expand tasks name stack reachable ≡ ok next
    → ((contains name reachable ≡ true) × (next ≡ (stack, reachable)))
      ⊎ Expanded tasks name stack reachable next
unfolding expand push_deps
expand-cases tasks name stack reachable next h = elim (Bool-cases (contains name reachable)) [
  | inl e ↦ inl (e, ground (arith, h, e))
  | inr e ↦ elim (Option-cases (get name tasks)) [
    | inl g ↦ absurd (ground (arith, h, e, g))
    | inr (t, g) ↦ elim (Option-cases (undefined_in tasks t.depends_on)) [
      | inl u ↦ inr (record {
        fresh = e;
        task = t;
        found = g;
        defined = u;
        pushed = ground (arith, h, e, g, u);
      })
      | inr (d, u) ↦ absurd (ground (arith, h, e, g, u))
    ]
  ]
]

-- The dependencies of the tasks that are not reached yet.
unfoldable pub unread : List String → Tasks → ℕ
unread reachable [] = 0
unread reachable ((name, task) ∷ rest) =
    (if contains name reachable then 0 else length task.depends_on) + unread reachable rest

pub unread-nil : (tasks : Tasks) → unread [] tasks ≡ count_deps tasks
unfolding unread count_deps
unread-nil [] = refl
unread-nil ((name, task) ∷ rest) = ground (arith, unread-nil rest)

unread_other :
    (name : String) (reachable : List String) (tasks : Tasks)
    → Map.Before name tasks
    → unread (Set.insert name reachable) tasks ≡ unread reachable tasks
unfolding unread
unread_other name reachable [] b = refl
unread_other name reachable ((n, task) ∷ rest) b = ground (
  arith,
  lt-ne name n,
  eqb_iff n name,
  Set.contains-insert name n reachable,
  unread_other name reachable rest b.1,
)

pub unread-insert :
    (name : String) (task : TaskDefinition) (reachable : List String) (tasks : Tasks)
    → Map.IsSorted tasks
    → contains name reachable ≡ false
    → get name tasks ≡ some task
    → unread (Set.insert name reachable) tasks + length task.depends_on ≡ unread reachable tasks
unfolding unread get
unread-insert name task reachable [] s f g = cc
unread-insert name task reachable ((n, t) ∷ rest) s f g = ground (
  arith,
  eqb_iff name n,
  eqb_iff n name,
  Set.contains-insert name n reachable,
  unread_other n reachable rest s.0,
  Map.Before-get n rest s.0,
  unread-insert name task reachable rest s.1 f,
)

pub unread_le :
    (reachable : List String) (tasks : Tasks) → unread reachable tasks ≤ count_deps tasks
unfolding unread count_deps
unread_le reachable [] = omega arith
unread_le reachable ((name, task) ∷ rest) = ground (arith, unread_le reachable rest)
