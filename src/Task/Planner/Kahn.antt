-- ===== src/Task/Planner/Kahn.antt =====
-- crates/nxr-task/src/planner.rs: the loop of the sort.
use nxr.Base.{
  ℕ, zero, suc, ◌+◌, ◌-◌, ◌≤◌, ◌<◌, ◌≡◌, true, false, ◌||◌, List, [], ◌∷◌, none, some, String,
  arith, length, if◌then◌else◌, ◌==◌, Option-cases, List-cases, inl, inr,
}
use nxr.Base.Order.{string_ord, eqb_iff, eqb_self}
use nxr.Base.Set
use nxr.Base.Set.{contains, Distinct}
use nxr.Base.Map
use nxr.Base.Map.{get}
use nxr.Task.Rows.{Dependents, children, one_if, IsLinked}
use nxr.Task.Planner.Defs.{Kahn, settle_child, settle_children, kahn_loop}
use nxr.Task.Planner.Missing.{missing, missing-zero, missing-cons}

-- Every dependency of a node of the list stands behind it, and no node stands twice.
abbrev pub Topo : Dependents → List String → Type 0
Topo dep [] = Unit
Topo dep (n ∷ earlier) =
    ((d : String) → contains n (children dep d) ≡ true → contains d earlier ≡ true)
    × (contains n earlier ≡ false)
    × Topo dep earlier

pub Topo-Distinct : (dep : Dependents) (done : List String) → Topo dep done → Distinct done
Topo-Distinct dep [] t = tt
Topo-Distinct dep (n ∷ earlier) t = (t.1, Topo-Distinct dep earlier t.2)

-- A node's count is the number of its dependencies outside the order, `todo` being nodes still to be
-- counted down; the nodes with none are ready or in the order.
pub record Sorting (dep : Dependents) (ids : List String) (k : Kahn) (done todo : List String)
    : Type 0 where
  pub exact :
      (n : String)
      → get n k.counts
        ≡ (if contains n ids then some (missing n done dep + one_if (contains n todo)) else none)
  pub released :
      (n : String)
      → contains n ids ≡ true
      → (contains n k.ready || contains n done)
        ≡ (missing n done dep + one_if (contains n todo) == 0)
  pub apart : (n : String) → contains n k.ready ≡ true → contains n done ≡ false
  pub within : (n : String) → (contains n k.ready || contains n done) ≡ true → contains n ids ≡ true
  pub topo : Topo dep done

module _ (dep : Dependents) (ids : List String) where
  settle_child-Sorting :
      (k : Kahn) (done : List String) (c : String) (cs : List String)
      → contains c cs ≡ false
      → Sorting dep ids k done (c ∷ cs)
      → Sorting dep ids (settle_child k c) done cs
  unfolding settle_child
  settle_child-Sorting k done c cs fresh v = elim (Option-cases (get c k.counts)) [
    | inl e ↦
        rw (e, settle_child)
          (record {
            exact = λ n. ground (arith, v.exact n, v.exact c, eqb_iff n c);
            released = λ n i. ground (arith, v.released n i, v.exact c, eqb_iff n c);
            apart = v.apart;
            within = v.within;
            topo = v.topo;
          })
    | inr (deg, e) ↦
        rw (e, settle_child)
          (record {
            exact = λ n. ground (
              arith,
              v.exact n,
              v.exact c,
              eqb_iff n c,
              eqb_self c,
              Map.get-insert c n (deg - 1) k.counts,
            );
            released = λ n i. ground (
              arith,
              v.released n i,
              v.released c,
              v.exact c,
              eqb_iff n c,
              eqb_self c,
              Set.contains-insert c n k.ready,
            );
            apart = λ n r. ground (
              arith,
              v.apart n,
              v.released c,
              v.exact c,
              eqb_iff n c,
              eqb_self c,
              Set.contains-insert c n k.ready,
            );
            within = λ n r.
                ground (arith, v.within n, v.exact c, eqb_iff n c, Set.contains-insert c n k.ready);
            topo = v.topo;
          })
  ]

  settle_children-Sorting :
      (k : Kahn) (done cs : List String)
      → Set.IsSorted cs
      → Sorting dep ids k done cs
      → Sorting dep ids (settle_children k cs) done []
  unfolding settle_children
  settle_children-Sorting k done [] so v = v
  settle_children-Sorting k done (c ∷ cs) so v =
      settle_children-Sorting (settle_child k c) done cs so.1
        (settle_child-Sorting k done c cs (Set.Before-absent c cs so.0) v)

  pop-Sorting :
      (k : Kahn) (done : List String) (id : String)
      → IsLinked dep
      → contains id k.ready ≡ true
      → Sorting dep ids k done []
      → Sorting dep ids
          (record { counts = k.counts; ready = Set.remove id k.ready })
          (id ∷ done)
          (children dep id)
  pop-Sorting k done id l r v =
      let outside = v.apart id r in
      let inside = v.within id (ground (arith, r)) in
      let none_missing : missing id done dep ≡ 0 = ground (arith, v.released id inside) in
      record {
        exact = λ n. ground (arith, v.exact n, missing-cons n id done dep l.rows outside);
        released = λ n i. ground (
          arith,
          v.released n i,
          missing-cons n id done dep l.rows outside,
          Set.contains-remove id n k.ready,
          eqb_iff n id,
          eqb_iff id n,
        );
        apart = λ n h.
            ground (arith, v.apart n, Set.contains-remove id n k.ready, eqb_iff n id, eqb_iff id n);
        within = λ n h. ground (arith, v.within n, Set.contains-remove id n k.ready, eqb_iff n id);
        topo = (λ d c. missing-zero id d done dep none_missing c, outside, v.topo);
      }

  pub done-within :
      (k : Kahn) (done : List String) → Sorting dep ids k done [] → length done ≤ length ids
  done-within k done v =
      Set.Distinct-length done ids (Topo-Distinct dep done v.topo)
        (λ n c. v.within n (ground arith))

  -- The loop ends with nothing ready: the rounds given are enough.
  pub kahn_loop-Sorting :
      (fuel : ℕ) (k : Kahn) (done : List String)
      → IsLinked dep
      → length ids < fuel + length done
      → Sorting dep ids k done []
      → Sorting dep ids (kahn_loop fuel dep k done).1 (kahn_loop fuel dep k done).0 []
        × ((kahn_loop fuel dep k done).1.ready ≡ [])
  unfolding kahn_loop
  kahn_loop-Sorting zero k done l h v = absurd (omega (arith, done-within k done v))
  kahn_loop-Sorting (suc fuel) k done l h v = elim (List-cases k.ready) [
    | inl e ↦ rw (e, kahn_loop) (v, e)
    | inr (id, rest, e) ↦
        let first : contains id k.ready ≡ true = rw e (ground (arith, eqb_self id)) in
        rw (e, kahn_loop)
          (kahn_loop-Sorting fuel
            (settle_children (record { counts = k.counts; ready = Set.remove id k.ready })
              (children dep id))
            (id ∷ done) l (omega (arith, h))
            (settle_children-Sorting _ (id ∷ done) (children dep id) (l.row id)
              (pop-Sorting k done id l first v)))
  ]
