-- ===== src/Task/Graph/Rows.antt =====
-- crates/nxr-task/src/graph.rs: the rows of a graph, and those built for the reachable tasks.
use nxr.Base.{◌≡◌, refl, true, false, List, [], ◌∷◌, none, some, String, arith, if◌then◌else◌}
use nxr.Base.Order.{string_ord, eqb_iff}
use nxr.Base.Set
use nxr.Base.Set.{contains}
use nxr.Base.Map
use nxr.Base.Map.{get}
use nxr.Task.Schema.{Tasks}
use nxr.Task.Graph.Defs.{TaskGraph, to_set, dependency_row, graph_of, node_ids}
use nxr.Task.Graph.Expand.{depends_on}

-- Every row of a graph is a set.
abbrev pub HasSets : List (String × List String) → Type 0
HasSets [] = Unit
HasSets ((n, deps) ∷ m) = Set.IsSorted deps × HasSets m

-- A graph is a `BTreeMap` of sorted dependency lists without repetitions.
pub record IsGraph (graph : TaskGraph) : Type 0 where
  pub sorted : Map.IsSorted graph.deps
  pub sets : HasSets graph.deps

pub contains-to_set : (n : String) (xs : List String) → contains n (to_set xs) ≡ contains n xs
unfolding to_set
contains-to_set n [] = refl
contains-to_set n (x ∷ xs) =
    ground (arith, Set.contains-insert x n (to_set xs), contains-to_set n xs)

pub to_set-IsSorted : (xs : List String) → Set.IsSorted (to_set xs)
unfolding to_set
to_set-IsSorted [] = tt
to_set-IsSorted (x ∷ xs) = Set.insert-IsSorted x (to_set xs) (to_set-IsSorted xs)

pub insert-HasSets :
    (n : String) (row : List String) (m : List (String × List String))
    → Set.IsSorted row
    → HasSets m
    → HasSets (Map.insert n row m)
unfolding Map.insert
insert-HasSets n row [] so h = (so, tt)
insert-HasSets n row ((k, r) ∷ m) so h = ground (arith, so, h.0, h.1, insert-HasSets n row m so h.1)

dependency_row-IsSorted : (tasks : Tasks) (n : String) → Set.IsSorted (dependency_row tasks n)
unfolding dependency_row
dependency_row-IsSorted tasks n =
    elim (get n tasks)
      as (λ t. Set.IsSorted (elim t [ none ↦ [] | some task ↦ to_set task.depends_on ])) [
        | none ↦ tt
        | some task ↦ to_set-IsSorted task.depends_on
      ]

pub dependency_row-contains :
    (tasks : Tasks) (n d : String)
    → contains d (dependency_row tasks n) ≡ contains d (depends_on tasks n)
unfolding dependency_row
dependency_row-contains tasks n d =
    elim (get n tasks)
      as (λ t.
        contains d (elim t [ none ↦ [] | some task ↦ to_set task.depends_on ])
        ≡ contains d (elim t [ none ↦ [] | some task ↦ task.depends_on ])) [
          | none ↦ refl
          | some task ↦ contains-to_set d task.depends_on
        ]

pub get-graph_of :
    (tasks : Tasks) (names : List String) (n : String)
    → get n (graph_of tasks names)
      ≡ (if contains n names then some (dependency_row tasks n) else none)
unfolding graph_of get
get-graph_of tasks [] n = refl
get-graph_of tasks (x ∷ xs) n = ground (
  arith,
  Map.get-insert x n (dependency_row tasks x) (graph_of tasks xs),
  eqb_iff n x,
  get-graph_of tasks xs n,
)

pub contains-node_ids :
    (m : List (String × List String)) (n : String)
    → contains n (node_ids m) ≡ (elim (get n m) [ none ↦ false | some _ ↦ true ])
unfolding node_ids get
contains-node_ids [] n = refl
contains-node_ids ((k, row) ∷ m) n = ground (arith, eqb_iff n k, contains-node_ids m n)

pub graph_of-IsGraph :
    (tasks : Tasks) (names : List String) → IsGraph (record { deps = graph_of tasks names })
unfolding graph_of
graph_of-IsGraph tasks [] = record { sorted = tt; sets = tt }
graph_of-IsGraph tasks (x ∷ xs) =
    let g = graph_of-IsGraph tasks xs in
    record {
      sorted = Map.insert-IsSorted x (dependency_row tasks x) (graph_of tasks xs) g.sorted;
      sets =
          insert-HasSets x (dependency_row tasks x) (graph_of tasks xs)
            (dependency_row-IsSorted tasks x) g.sets;
    }
