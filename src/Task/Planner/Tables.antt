-- ===== src/Task/Planner/Tables.antt =====
-- crates/nxr-task/src/planner.rs: the tables of the sort hold every edge of the graph once.
use nxr.Base.{
  ℕ, ◌+◌, ◌≡◌, refl, true, false, ◌&&◌, ◌||◌, List, [], ◌∷◌, none, some, String, arith,
  if◌then◌else◌, ◌==◌, Option-cases, inl, inr,
}
use nxr.Base.Order.{string_ord, eqb, eqb_iff, eqb_self, lt-ne}
use nxr.Base.Set
use nxr.Base.Set.{contains}
use nxr.Base.Map
use nxr.Base.Map.{get}
use nxr.Task.Rows.{children, degree, IsLinked, children-insert, degree-insert, insert-IsLinked}
use nxr.Task.Graph.Defs.{node_ids}
use nxr.Task.Graph.Rows.{HasSets}
use nxr.Task.Planner.Defs.{Tables, init_tables, add_edge, add_edges, add_rows, zeros}

-- A node's count is the number of rows that it stands in.
pub record Counted (ids : List String) (t : Tables) : Type 0 where
  pub linked : IsLinked t.dependents
  pub counts : Map.IsSorted t.indegree
  pub exact :
      (n : String)
      → get n t.indegree ≡ (if contains n ids then some (degree n t.dependents) else none)

pub init_tables-children :
    (ids : List String) (d : String) → children (init_tables ids).dependents d ≡ []
unfolding init_tables get
init_tables-children [] d = refl
init_tables-children (id ∷ ids) d =
    rw (children-insert id d [] (init_tables ids).dependents, init_tables-children ids d)
      (ground arith)

init_tables-IsLinked : (ids : List String) → IsLinked (init_tables ids).dependents
unfolding init_tables get
init_tables-IsLinked [] = record { rows = tt; row = λ d. tt }
init_tables-IsLinked (id ∷ ids) =
    insert-IsLinked id [] (init_tables ids).dependents tt (init_tables-IsLinked ids)

init_tables-degree : (ids : List String) (n : String) → degree n (init_tables ids).dependents ≡ 0
unfolding init_tables degree
init_tables-degree [] n = refl
init_tables-degree (id ∷ ids) n = ground (
  arith,
  degree-insert n id [] (init_tables ids).dependents (init_tables-IsLinked ids).rows,
  init_tables-degree ids n,
)

pub init_tables-Counted : (ids : List String) → Counted ids (init_tables ids)
unfolding init_tables get
init_tables-Counted [] = record { linked = init_tables-IsLinked []; counts = tt; exact = λ n. refl }
init_tables-Counted (id ∷ ids) =
    let v = init_tables-Counted ids in
    record {
      linked = init_tables-IsLinked (id ∷ ids);
      counts = Map.insert-IsSorted id 0 (init_tables ids).indegree v.counts;
      exact = λ n. rw (init_tables-degree (id ∷ ids) n) (
          ground (
            arith,
            v.exact n,
            init_tables-degree ids n,
            Map.get-insert id n 0 (init_tables ids).indegree,
          ));
    }

pub add_edge-children :
    (p : String) (t : Tables) (e n d : String)
    → contains n (children (add_edge p t e).dependents d)
      ≡ (contains n (children t.dependents d) || (eqb d e && eqb n p))
unfolding add_edge
add_edge-children p t e n d =
    rw (children-insert e d (Set.insert p (children t.dependents e)) t.dependents)
      (ground (arith, eqb_iff d e, Set.contains-insert p n (children t.dependents e)))

pub add_edges-children :
    (p : String) (t : Tables) (es : List String) (n d : String)
    → contains n (children (add_edges p t es).dependents d)
      ≡ (contains n (children t.dependents d) || (contains d es && eqb n p))
unfolding add_edges
add_edges-children p t [] n d = ground arith
add_edges-children p t (e ∷ es) n d =
    ground (arith, add_edges-children p (add_edge p t e) es n d, add_edge-children p t e n d)

pub add_rows-children :
    (t : Tables) (m : List (String × List String)) (n d : String)
    → Map.IsSorted m
    → contains n (children (add_rows t m).dependents d)
      ≡ (contains n (children t.dependents d) || contains d (children m n))
unfolding add_rows get
add_rows-children t [] n d s = ground arith
add_rows-children t ((p, es) ∷ m) n d s = ground (
  arith,
  add_rows-children (add_edges p t es) m n d s.1,
  add_edges-children p t es n d,
  eqb_iff n p,
  Map.Before-get p m,
)

pub Before-node_ids :
    (p : String) (m : List (String × List String))
    → Map.Before p m
    → contains p (node_ids m) ≡ false
unfolding node_ids
Before-node_ids p [] b = refl
Before-node_ids p ((n, deps) ∷ m) b = ground (arith, lt-ne p n, Before-node_ids p m b.1)

module _ (ids : List String) where
  add_edge-Counted :
      (p : String) (t : Tables) (e : String)
      → contains p (children t.dependents e) ≡ false
      → Counted ids t
      → Counted ids (add_edge p t e)
  unfolding add_edge
  add_edge-Counted p t e fresh v =
      let row = Set.insert p (children t.dependents e) in
      record {
        linked =
            insert-IsLinked e row t.dependents
              (Set.insert-IsSorted p (children t.dependents e) (v.linked.row e)) v.linked;
        counts =
            elim (get p t.indegree)
              as (λ o.
                Map.IsSorted
                  (elim o [ none ↦ t.indegree | some n ↦ Map.insert p (n + 1) t.indegree ])) [
                    | none ↦ v.counts
                    | some n ↦ Map.insert-IsSorted p (n + 1) t.indegree v.counts
                  ];
        exact = λ n. elim (Option-cases (get p t.indegree)) [
          | inl h ↦ ground (
            arith,
            v.exact n,
            v.exact p,
            eqb_iff n p,
            degree-insert n e row t.dependents v.linked.rows,
            Set.contains-insert p n (children t.dependents e),
          )
          | inr (k, h) ↦ ground (
            arith,
            v.exact n,
            v.exact p,
            eqb_iff n p,
            eqb_self p,
            degree-insert n e row t.dependents v.linked.rows,
            Set.contains-insert p n (children t.dependents e),
            Map.get-insert p n (k + 1) t.indegree,
          )
        ];
      }

  add_edges-Counted :
      (p : String) (t : Tables) (es : List String)
      → Set.IsSorted es
      → ((d : String) → contains d es ≡ true → contains p (children t.dependents d) ≡ false)
      → Counted ids t
      → Counted ids (add_edges p t es)
  unfolding add_edges
  add_edges-Counted p t [] so fresh v = v
  add_edges-Counted p t (e ∷ es) so fresh v =
      add_edges-Counted p (add_edge p t e) es so.1
        (λ d i.
          rw (add_edge-children p t e p d)
            (ground (arith, fresh d, eqb_iff d e, Set.Before-absent e es so.0)))
        (add_edge-Counted p t e (fresh e (ground (arith, eqb_self e))) v)

  pub add_rows-Counted :
      (t : Tables) (m : List (String × List String))
      → Map.IsSorted m
      → HasSets m
      → ((n d : String)
          → contains n (node_ids m) ≡ true
          → contains n (children t.dependents d) ≡ false)
      → Counted ids t
      → Counted ids (add_rows t m)
  unfolding add_rows node_ids
  add_rows-Counted t [] s sets fresh v = v
  add_rows-Counted t ((p, es) ∷ m) s sets fresh v =
      add_rows-Counted (add_edges p t es) m s.1 sets.1
        (λ n d i.
          rw (add_edges-children p t es n d)
            (ground (arith, fresh n d, eqb_iff n p, Before-node_ids p m s.0)))
        (add_edges-Counted p t es sets.0 (λ d i. fresh p d (ground (arith, eqb_self p))) v)

pub zeros-get :
    (m : List (String × ℕ)) (n : String)
    → Map.IsSorted m
    → contains n (zeros m) ≡ (elim (get n m) [ none ↦ false | some k ↦ k == 0 ])
unfolding zeros get
zeros-get [] n s = refl
zeros-get ((id, k) ∷ m) n s = ground (arith, eqb_iff n id, Map.Before-get id m, zeros-get m n s.1)
