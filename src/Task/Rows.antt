-- ===== src/Task/Rows.antt =====
-- Tables of dependents: under each dependency the set of the nodes that list it. The scheduler and the
-- planner count by them (crates/nxr-task/src/scheduler.rs and planner.rs).
use nxr.Base.{ℕ, ◌+◌, ◌≡◌, Bool, true, false, List, [], ◌∷◌, String, arith, get_or, if◌then◌else◌}
use nxr.Base.Order.{string_ord, eqb, eqb_iff}
use nxr.Base.Set
use nxr.Base.Set.{contains}
use nxr.Base.Map
use nxr.Base.Map.{get}

abbrev pub Dependents : Type 0
Dependents = List (String × List String)

abbrev pub children : Dependents → String → List String
children m d = get_or (get d m) []

abbrev pub one_if : Bool → ℕ
one_if b = if b then 1 else 0

-- In how many rows a node stands.
unfoldable pub degree : String → Dependents → ℕ
degree n [] = 0
degree n ((d, cs) ∷ m) = one_if (contains n cs) + degree n m

-- The rows of the table of dependents are sets.
pub record IsLinked (dep : Dependents) : Type 0 where
  pub rows : Map.IsSorted dep
  pub row : (d : String) → Set.IsSorted (children dep d)

pub degree-insert :
    (n d : String) (cs : List String) (m : Dependents)
    → Map.IsSorted m
    → degree n (Map.insert d cs m) + one_if (contains n (children m d))
      ≡ degree n m + one_if (contains n cs)
unfolding degree Map.insert get
degree-insert n d cs [] s = ground arith
degree-insert n d cs ((e, ds) ∷ m) s = ground (
  arith,
  string_ord.cmp_eq d e,
  eqb_iff d e,
  Map.Before-get d m,
  Map.Before-trans d e m,
  degree-insert n d cs m s.1,
)

pub children-insert :
    (d e : String) (cs : List String) (m : Dependents)
    → children (Map.insert d cs m) e ≡ (if eqb e d then cs else children m e)
children-insert d e cs m = ground (arith, Map.get-insert d e cs m)

-- Changing one row to a set keeps the table linked.
pub insert-IsLinked :
    (d : String) (cs : List String) (m : Dependents)
    → Set.IsSorted cs
    → IsLinked m
    → IsLinked (Map.insert d cs m)
insert-IsLinked d cs m so l = record {
  rows = Map.insert-IsSorted d cs m l.rows;
  row = λ e.
      rw children-insert (elim (eqb e d) as (λ b. Set.IsSorted (if b then cs else children m e)) [
        | true ↦ so
        | false ↦ l.row e
      ]);
}
