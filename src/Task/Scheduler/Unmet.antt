-- ===== src/Task/Scheduler/Unmet.antt =====
-- crates/nxr-task/src/scheduler.rs: the count of the dependencies that have not succeeded yet.
use nxr.Base.{
  ℕ, ◌+◌, ◌≡◌, refl, Bool, true, false, not, ◌&&◌, List, [], ◌∷◌, Option, some, String, arith,
}
use nxr.Base.Order.{string_ord, eqb_iff, lt-ne}
use nxr.Base.Set.{contains}
use nxr.Base.Map
use nxr.Base.Map.{get}
use nxr.Task.Rows.{Dependents, children, one_if}
use nxr.Task.Scheduler.State.{NodeState, pending, ready, running, succeeded, failed}

abbrev pub States : Type 0
States = List (String × NodeState)

abbrev pub has_succeeded : Option NodeState → Bool
has_succeeded (some succeeded) = true
has_succeeded _ = false

-- The node was released by its dependencies.
abbrev pub was_released : Option NodeState → Bool
was_released (some ready) = true
was_released (some running) = true
was_released (some succeeded) = true
was_released (some failed) = true
was_released _ = false

abbrev pub is_held : Option NodeState → Bool
is_held (some pending) = true
is_held _ = false

unfoldable pub unmet : String → States → Dependents → ℕ
unmet n st [] = 0
unmet n st ((d, cs) ∷ m) = one_if (contains n cs && not (has_succeeded (get d st))) + unmet n st m

pub unmet-zero :
    (n d : String) (st : States) (m : Dependents)
    → unmet n st m ≡ 0
    → contains n (children m d) ≡ true
    → has_succeeded (get d st) ≡ true
unfolding unmet get
unmet-zero n d st [] h c = ground arith
unmet-zero n d st ((e, cs) ∷ m) h c = ground (arith, eqb_iff d e, unmet-zero n d st m)

-- Only success changes the count.
pub unmet-put :
    (n id : String) (new : NodeState) (st : States) (m : Dependents)
    → has_succeeded (get id st) ≡ false
    → has_succeeded (some new) ≡ false
    → unmet n (Map.insert id new st) m ≡ unmet n st m
unfolding unmet
unmet-put n id new st [] h k = refl
unmet-put n id new st ((d, cs) ∷ m) h k =
    ground (arith, Map.get-insert id d new st, eqb_iff d id, unmet-put n id new st m)

unmet-other :
    (n id : String) (new : NodeState) (st : States) (m : Dependents)
    → Map.Before id m
    → unmet n (Map.insert id new st) m ≡ unmet n st m
unfolding unmet
unmet-other n id new st [] b = refl
unmet-other n id new st ((d, cs) ∷ m) b = ground (
  arith,
  Map.get-insert id d new st,
  eqb_iff d id,
  eqb_iff id d,
  lt-ne id d,
  unmet-other n id new st m b.1,
)

-- When a node succeeds, each of its dependents has one dependency fewer to wait for.
pub unmet-succeed :
    (n id : String) (st : States) (m : Dependents)
    → Map.IsSorted m
    → has_succeeded (get id st) ≡ false
    → unmet n (Map.insert id succeeded st) m + one_if (contains n (children m id)) ≡ unmet n st m
unfolding unmet get
unmet-succeed n id st [] s h = refl
unmet-succeed n id st ((d, cs) ∷ m) s h = ground (
  arith,
  Map.get-insert id d succeeded st,
  eqb_iff d id,
  eqb_iff id d,
  Map.Before-get d m,
  unmet-other n d succeeded st m s.0,
  unmet-succeed n id st m s.1 h,
)
