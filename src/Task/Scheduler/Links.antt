-- ===== src/Task/Scheduler/Links.antt =====
-- crates/nxr-task/src/scheduler.rs: the table of dependents that `new` builds from `depends_on`.
use nxr.Base.{
  ℕ, ◌+◌, ◌≤◌, ◌≡◌, true, ◌&&◌, ◌||◌, List, [], ◌∷◌, String, arith, length, if◌then◌else◌, ◌⊎◌, inl,
  inr,
}
use nxr.Base.Order.{string_ord, eqb, eqb_iff, eqb_self}
use nxr.Base.Set
use nxr.Base.Set.{contains}
use nxr.Task.Rows.{
  Dependents, children, one_if, degree, IsLinked, degree-insert, insert-IsLinked, children-insert,
}
use nxr.Task.Plan.{PlanNode}
use nxr.Task.Scheduler.Start.{or_default, link, link_node, link_all}
use nxr.Task.Scheduler.Unmet.{States, unmet}

pub unmet-le-degree : (n : String) (st : States) (m : Dependents) → unmet n st m ≤ degree n m
unfolding unmet degree
unmet-le-degree n st [] = omega arith
unmet-le-degree n st ((d, cs) ∷ m) = ground (arith, unmet-le-degree n st m)

pub or_default-IsLinked : (id : String) (m : Dependents) → IsLinked m → IsLinked (or_default id m)
unfolding or_default
or_default-IsLinked id m l = insert-IsLinked id (children m id) m (l.row id) l

pub degree-or_default :
    (n id : String) (m : Dependents) → IsLinked m → degree n (or_default id m) ≡ degree n m
unfolding or_default
degree-or_default n id m l = omega (arith, degree-insert n id (children m id) m l.rows)

link-IsLinked : (id d : String) (m : Dependents) → IsLinked m → IsLinked (link id d m)
unfolding link
link-IsLinked id d m l =
    insert-IsLinked d (Set.insert id (children m d)) m
      (Set.insert-IsSorted id (children m d) (l.row d)) l

degree-link :
    (n id d : String) (m : Dependents)
    → IsLinked m
    → degree n (link id d m) ≤ degree n m + one_if (eqb n id)
unfolding link
degree-link n id d m l = ground (
  arith,
  degree-insert n d (Set.insert id (children m d)) m l.rows,
  Set.contains-insert id n (children m d),
)

contains-link :
    (n e id d : String) (m : Dependents)
    → contains n (children (link id d m) e) ≡ (eqb e d && eqb n id || contains n (children m e))
unfolding link
contains-link n e id d m = ground (
  arith,
  children-insert d e (Set.insert id (children m d)) m,
  Set.contains-insert id n (children m d),
  eqb_iff e d,
)

-- How many dependencies the nodes of an id list.
unfoldable pub listed : String → List PlanNode → ℕ
listed n [] = 0
listed n (x ∷ xs) = (if eqb n x.id then length x.depends_on else 0) + listed n xs

link_node_lem :
    (n id : String) (deps : List String) (m : Dependents)
    → IsLinked m
    → IsLinked (link_node id deps m)
      × (degree n (link_node id deps m) ≤ degree n m + (if eqb n id then length deps else 0))
unfolding link_node
link_node_lem n id [] m l = (l, ground arith)
link_node_lem n id (d ∷ deps) m l =
    let (linked, few) = link_node_lem n id deps (link id d m) (link-IsLinked id d m l) in
    (linked, ground (arith, few, degree-link n id d m l))

-- The table stays linked, and a node stands in at most as many rows as it lists dependencies.
pub link_all_lem :
    (n : String) (nodes : List PlanNode) (m : Dependents)
    → IsLinked m
    → IsLinked (link_all nodes m) × (degree n (link_all nodes m) ≤ degree n m + listed n nodes)
unfolding link_all listed
link_all_lem n [] m l = (l, omega arith)
link_all_lem n (x ∷ xs) m l =
    let (one, few) = link_node_lem n x.id x.depends_on m l in
    let (linked, rest) = link_all_lem n xs (link_node x.id x.depends_on m) one in
    (linked, ground (arith, few, rest))

link_node_keeps :
    (n e id : String) (deps : List String) (m : Dependents)
    → contains n (children m e) ≡ true
    → contains n (children (link_node id deps m) e) ≡ true
unfolding link_node
link_node_keeps n e id [] m h = h
link_node_keeps n e id (d ∷ deps) m h =
    link_node_keeps n e id deps (link id d m) (ground (arith, contains-link n e id d m))

link_node_links :
    (e id : String) (deps : List String) (m : Dependents)
    → contains e deps ≡ true
    → contains id (children (link_node id deps m) e) ≡ true
unfolding link_node
link_node_links e id [] m h = cc
link_node_links e id (d ∷ deps) m h =
    let first = link_node_keeps id e id deps (link id d m) in
    let later = link_node_links e id deps (link id d m) in
    ground (arith, first, later, contains-link id e id d m, eqb_self id)

link_all_keeps :
    (n e : String) (nodes : List PlanNode) (m : Dependents)
    → contains n (children m e) ≡ true
    → contains n (children (link_all nodes m) e) ≡ true
unfolding link_all
link_all_keeps n e [] m h = h
link_all_keeps n e (x ∷ xs) m h =
    link_all_keeps n e xs (link_node x.id x.depends_on m)
      (link_node_keeps n e x.id x.depends_on m h)

-- The node is one of the list.
abbrev pub Has : PlanNode → List PlanNode → Type 0
Has node [] = ⊥
Has node (x ∷ xs) = (node ≡ x) ⊎ Has node xs

-- A node is a dependent of each dependency that it lists.
pub link_all_links :
    (e : String) (node : PlanNode) (nodes : List PlanNode) (m : Dependents)
    → Has node nodes
    → contains e node.depends_on ≡ true
    → contains node.id (children (link_all nodes m) e) ≡ true
unfolding link_all
link_all_links e node [] m h c = absurd h
link_all_links e node (x ∷ xs) m (inl h) c =
    link_all_keeps node.id e xs (link_node x.id x.depends_on m)
      (rw h (link_node_links e x.id x.depends_on m (rw h at c)))
link_all_links e node (x ∷ xs) m (inr h) c =
    link_all_links e node xs (link_node x.id x.depends_on m) h c
