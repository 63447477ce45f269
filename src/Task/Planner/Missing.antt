-- ===== src/Task/Planner/Missing.antt =====
-- crates/nxr-task/src/planner.rs: the dependencies of a node that are not in the order yet.
use nxr.Base.{ℕ, ◌+◌, ◌≤◌, ◌≡◌, refl, true, false, not, ◌&&◌, List, [], ◌∷◌, String, arith}
use nxr.Base.Order.{string_ord, eqb_iff, eqb_self, lt-ne}
use nxr.Base.Set.{contains}
use nxr.Base.Map
use nxr.Base.Map.{get}
use nxr.Task.Rows.{Dependents, children, one_if, degree}

unfoldable pub missing : String → List String → Dependents → ℕ
missing n done [] = 0
missing n done ((d, cs) ∷ m) = one_if (contains n cs && not (contains d done)) + missing n done m

pub missing-nil : (n : String) (m : Dependents) → missing n [] m ≡ degree n m
unfolding missing degree
missing-nil n [] = refl
missing-nil n ((d, cs) ∷ m) = ground (arith, missing-nil n m)

pub missing-zero :
    (n d : String) (done : List String) (m : Dependents)
    → missing n done m ≡ 0
    → contains n (children m d) ≡ true
    → contains d done ≡ true
unfolding missing get
missing-zero n d done [] h c = cc
missing-zero n d done ((e, cs) ∷ m) h c = ground (arith, eqb_iff d e, missing-zero n d done m)

pub missing_positive :
    (n d : String) (done : List String) (m : Dependents)
    → contains n (children m d) ≡ true
    → contains d done ≡ false
    → 1 ≤ missing n done m
unfolding missing get
missing_positive n d done [] h c = cc
missing_positive n d done ((e, cs) ∷ m) h c =
    ground (arith, eqb_iff d e, missing_positive n d done m)

missing_other :
    (n id : String) (done : List String) (m : Dependents)
    → Map.Before id m
    → missing n (id ∷ done) m ≡ missing n done m
unfolding missing
missing_other n id done [] b = refl
missing_other n id done ((d, cs) ∷ m) b =
    ground (arith, eqb_iff d id, eqb_iff id d, lt-ne id d, missing_other n id done m b.1)

-- When a node joins the order, each of its dependents misses one dependency fewer.
pub missing-cons :
    (n id : String) (done : List String) (m : Dependents)
    → Map.IsSorted m
    → contains id done ≡ false
    → missing n (id ∷ done) m + one_if (contains n (children m id)) ≡ missing n done m
unfolding missing get
missing-cons n id done [] s h = refl
missing-cons n id done ((d, cs) ∷ m) s h = ground (
  arith,
  eqb_iff d id,
  eqb_iff id d,
  Map.Before-get d m,
  missing_other n d done m s.0,
  missing-cons n id done m s.1 h,
)

pub missing-done :
    (n : String) (done : List String) (m : Dependents)
    → Map.IsSorted m
    → ((d : String) → contains n (children m d) ≡ true → contains d done ≡ true)
    → missing n done m ≡ 0
unfolding missing get
missing-done n done [] s h = refl
missing-done n done ((e, cs) ∷ m) s h =
    let rest =
      missing-done n done m s.1
        (λ d c. ground (arith, h d, c, eqb_iff d e, Map.Before-get e m s.0)) in
    ground (arith, rest, h e, eqb_self e)
