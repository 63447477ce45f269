-- ===== src/Task/Scheduler/Release.antt =====
-- crates/nxr-task/src/scheduler.rs: the release of the dependents of a node that succeeded.
use nxr.Base.{
  ℕ, ◌-◌, ◌≡◌, refl, true, false, List, [], ◌∷◌, some, String, arith, if◌then◌else◌, Bool-cases,
  Option-cases, inl, inr, ◌==◌,
}
use nxr.Base.Order.{string_ord, eqb_iff, eqb_self}
use nxr.Base.Set
use nxr.Base.Set.{contains}
use nxr.Base.Map
use nxr.Base.Map.{get}
use nxr.Task.Rows.{Dependents, children, IsLinked}
use nxr.Task.Scheduler.State.{Scheduler, ready, succeeded}
use nxr.Task.Scheduler.Exit.{is_pending, release_dependency, unlock_child, unlock_children}
use nxr.Task.Scheduler.States.{is_running}
use nxr.Task.Scheduler.Unmet.{States, has_succeeded, is_held, unmet-zero, unmet-put, unmet-succeed}
use nxr.Task.Scheduler.Order.{IsOrdered, Ordered, weaken-Ordered}

-- The count of `c` becomes `k`, and `c` is not to be counted down again.
lower-IsOrdered :
    (st : States) (rem : List (String × ℕ)) (dep : Dependents) (c : String) (cs : List String)
    (deg : ℕ)
    → contains c cs ≡ false
    → is_held (get c st) ≡ true
    → get c rem ≡ some deg
    → IsOrdered st rem dep (c ∷ cs)
    → IsOrdered st (Map.insert c (deg - 1) rem) dep cs
lower-IsOrdered st rem dep c cs deg fresh h e v = record {
  met = v.met;
  counted = λ n k hn en.
      ground (
        arith,
        v.counted n k hn,
        v.counted n deg hn,
        Map.get-insert c n (deg - 1) rem,
        eqb_iff n c,
      );
}

-- A node with nothing left to wait for is released.
pub ready-IsOrdered :
    (st : States) (rem : List (String × ℕ)) (dep : Dependents) (c : String) (cs : List String)
    → is_held (get c st) ≡ true
    → get c rem ≡ some 0
    → IsOrdered st rem dep cs
    → IsOrdered (Map.insert c ready st) rem dep cs
ready-IsOrdered st rem dep c cs h e v =
    let held = v.counted c 0 h e in
    let open_c : has_succeeded (get c st) ≡ false = ground arith in
    record {
      met = λ n d r i. ground (
        arith,
        v.met n d,
        Map.get-insert c n ready st,
        Map.get-insert c d ready st,
        eqb_iff n c,
        eqb_iff d c,
        unmet-zero c d st dep,
      );
      counted = λ n k hn en. ground (
        arith,
        v.counted n k,
        Map.get-insert c n ready st,
        eqb_iff n c,
        unmet-put n c ready st dep open_c refl,
      );
    }

release-Ordered :
    (s : Scheduler) (c : String) (cs : List String)
    → contains c cs ≡ false
    → is_held (get c s.states) ≡ true
    → Ordered s (c ∷ cs)
    → Ordered (release_dependency s c) cs
unfolding release_dependency
release-Ordered s c cs fresh h v = elim (Option-cases (get c s.remaining_deps)) [
  | inl e ↦ rw (e, release_dependency) (weaken-Ordered s c cs v)
  | inr (deg, e) ↦
      let lower = lower-IsOrdered s.states s.remaining_deps s.dependents c cs deg fresh h e v in
      let rem = Map.insert c (deg - 1) s.remaining_deps in
      rw (e, release_dependency)
        (elim (Bool-cases (deg - 1 == 0)) [
          | inl z ↦
              rw (z, if◌then◌else◌)
                (ready-IsOrdered s.states rem s.dependents c cs h
                  (ground (arith, Map.get-insert c c (deg - 1) s.remaining_deps, eqb_self c)) lower)
          | inr z ↦ rw (z, if◌then◌else◌) lower
        ])
]

unlock_child-Ordered :
    (s : Scheduler) (c : String) (cs : List String)
    → contains c cs ≡ false
    → Ordered s (c ∷ cs)
    → Ordered (unlock_child s c) cs
unfolding unlock_child is_pending
unlock_child-Ordered s c cs fresh v = elim (Option-cases (get c s.states)) [
  | inl e ↦ rw (e, unlock_child) (weaken-Ordered s c cs v)
  | inr (st, e) ↦
      rw (e, unlock_child)
        (elim (Bool-cases (is_pending st)) [
          | inl p ↦ rw (p, if◌then◌else◌) (release-Ordered s c cs fresh (ground arith) v)
          | inr p ↦ rw (p, if◌then◌else◌) (weaken-Ordered s c cs v)
        ])
]

pub unlock_children-Ordered :
    (s : Scheduler) (cs : List String)
    → Set.IsSorted cs
    → Ordered s cs
    → Ordered (unlock_children s cs) []
unfolding unlock_children
unlock_children-Ordered s [] so v = v
unlock_children-Ordered s (c ∷ cs) so v =
    unlock_children-Ordered (unlock_child s c) cs so.1
      (unlock_child-Ordered s c cs (Set.Before-absent c cs so.0) v)

pub succeed-Ordered :
    (st : States) (rem : List (String × ℕ)) (dep : Dependents) (node : String)
    → IsLinked dep
    → is_running (get node st) ≡ true
    → IsOrdered st rem dep []
    → IsOrdered (Map.insert node succeeded st) rem dep (children dep node)
succeed-Ordered st rem dep node l r v =
    let open_node : has_succeeded (get node st) ≡ false = ground arith in
    record {
      met = λ n d rn i. ground (
        arith,
        v.met n d,
        Map.get-insert node n succeeded st,
        Map.get-insert node d succeeded st,
        eqb_iff n node,
        eqb_iff d node,
      );
      counted = λ n k hn en. ground (
        arith,
        v.counted n k,
        Map.get-insert node n succeeded st,
        eqb_iff n node,
        unmet-succeed n node st dep l.rows open_node,
      );
    }
