-- ===== src/Affected/Reach.antt =====
-- crates/nxr-affected/src/analyze.rs: one round of the loop of `propagate_dependencies`.
use nxr.Base.{
  ◌+◌, ◌≤◌, ◌≡◌, refl, true, List, some, String, arith, length, Option-cases, ◌⊎◌, inl, inr,
}
use nxr.Base.Order.{string_ord, eqb_self}
use nxr.Base.Set.{contains}
use nxr.Base.Map.{get}
use nxr.Task.Rows.{children}
use nxr.Affected.Graph.{NodeKind, app, task, GraphNode, AffectedGraph}
use nxr.Affected.Marks.{
  NodeStatus, affected, unaffected, unknown, AffectedReason, add_reason, is_marked,
  unknown_dependency,
}
use nxr.Affected.Analyze.{
  Spread, explain, mark_child, reach, reach_affected, reach_unknown, dependency_reason,
}
use nxr.Affected.Spread.{
  Spreading, passes, is_some, status_of, pending, mark_child-status, mark_child-size,
  mark_child-kept, mark_child-Spreading,
}

-- What the work on some children does: the invariant stays, marked nodes stay marked, and the loop's
-- measure does not grow.
pub record Reached (graph : AffectedGraph) (busy : List String) (s s' : Spread) : Type 0 where
  pub spreading : Spreading graph busy s'
  pub kept : (j : String) → is_marked (status_of s j) ≡ true → is_marked (status_of s' j) ≡ true
  pub stays : (j : String) → is_some (status_of s j) ≡ true → is_some (status_of s' j) ≡ true
  pub less :
      length s'.queue + pending s'.enqueued graph.dependents
      ≤ length s.queue + pending s.enqueued graph.dependents

pub kind-cases : (kind : NodeKind) → (kind ≡ app) ⊎ (kind ≡ task)
kind-cases app = inl refl
kind-cases task = inr refl

module _ (graph : AffectedGraph) (busy : List String) where
  explain-Reached :
      (c : String) (r : AffectedReason) (s : Spread)
      → Spreading graph busy s
      → Reached graph busy s (explain c r s)
  unfolding add_reason
  explain-Reached c r s v = record {
    spreading = record {
      sorted = v.sorted;
      listed = v.listed;
      marked = v.marked;
      queued = v.queued;
      settled = v.settled;
    };
    kept = λ j h. h;
    stays = λ j h. h;
    less = omega arith;
  }

  explained :
      (c : String) (r : AffectedReason) (s : Spread)
      → is_marked (status_of s c) ≡ true
      → is_marked (status_of (explain c r s) c) ≡ true
  unfolding add_reason
  explained c r s h = h

  pub Reached-self : (s : Spread) → Spreading graph busy s → Reached graph busy s s
  Reached-self s v = record { spreading = v; kept = λ j h. h; stays = λ j h. h; less = omega arith }

  pub Reached-trans :
      (s t u : Spread) → Reached graph busy s t → Reached graph busy t u → Reached graph busy s u
  Reached-trans s t u a b = record {
    spreading = b.spreading;
    kept = λ j h. b.kept j (a.kept j h);
    stays = λ j h. b.stays j (a.stays j h);
    less = omega (arith, a.less, b.less);
  }

  module _ (k c : String) (child : contains c (children graph.dependents k) ≡ true)
      (kinds : (node : GraphNode) → get c graph.nodes ≡ some node → node.kind ≡ task) where
    told_and_marked :
        (r : AffectedReason) (status : NodeStatus) (s : Spread)
        → is_marked (some status) ≡ true
        → Spreading graph busy s
        → Reached graph busy s (mark_child c status (explain c r s))
    told_and_marked r status s m v =
        let told = explain c r s in
        let a = explain-Reached c r s v in
        Reached-trans s told (mark_child c status told) a (record {
          spreading = mark_child-Spreading graph busy c status told a.spreading kinds m;
          kept = mark_child-kept graph busy c status told a.spreading kinds m;
          stays = λ j h. ground (arith, h, mark_child-status c j status told);
          less = mark_child-size c k status told graph.dependents child;
        })

    marked_at :
        (r : AffectedReason) (status : NodeStatus) (s : Spread)
        → is_marked (some status) ≡ true
        → is_marked (status_of (mark_child c status (explain c r s)) c) ≡ true
    marked_at r status s m =
        ground (arith, m, eqb_self c, mark_child-status c c status (explain c r s))

    reach_affected-Reached :
        (source : GraphNode) (s : Spread)
        → Spreading graph busy s
        → Reached graph busy s (reach_affected source c s)
          × (is_marked (status_of (reach_affected source c s) c) ≡ true)
    unfolding reach_affected
    reach_affected-Reached source s v =
        let r = dependency_reason source.kind source.name in
        let all = told_and_marked r affected s refl v in
        let here = marked_at r affected s refl in
        elim (Option-cases (status_of s c)) [
          | inl e ↦ rw (e, reach_affected) (all, here)
          | inr (affected, e) ↦
              rw (e, reach_affected) (explain-Reached c r s v, explained c r s (rw e refl))
          | inr (unaffected, e) ↦ rw (e, reach_affected) (all, here)
          | inr (unknown, e) ↦ rw (e, reach_affected) (all, here)
        ]

    reach_unknown-Reached :
        (source : GraphNode) (s : Spread)
        → Spreading graph busy s
        → Reached graph busy s (reach_unknown source c s)
          × (source.kind ≡ task → is_marked (status_of (reach_unknown source c s) c) ≡ true)
    unfolding reach_unknown
    reach_unknown-Reached source s v =
        let r = unknown_dependency source.name in
        let all = told_and_marked r unknown s refl v in
        let here = marked_at r unknown s refl in
        elim (kind-cases source.kind) [
          | inl k ↦ rw (k, reach_unknown) (Reached-self s v, λ e. absurd (ground (arith, e)))
          | inr k ↦ elim (Option-cases (status_of s c)) [
            | inl e ↦ rw (k, e, reach_unknown) (all, λ _. here)
            | inr (affected, e) ↦ rw (k, e, reach_unknown) (Reached-self s v, λ _. rw e refl)
            | inr (unaffected, e) ↦ rw (k, e, reach_unknown) (all, λ _. here)
            | inr (unknown, e) ↦
                rw (k, e, reach_unknown) (explain-Reached c r s v, λ _. explained c r s (rw e refl))
          ]
        ]

    pub reach-Reached :
        (status : NodeStatus) (source : GraphNode) (s : Spread)
        → Spreading graph busy s
        → Reached graph busy s (reach status source c s)
          × (passes (some status) source.kind ≡ true
              → is_marked (status_of (reach status source c s) c) ≡ true)
    unfolding reach
    reach-Reached affected source s v =
        let (r, m) = reach_affected-Reached source s v in (r, λ _. m)
    reach-Reached unaffected source s v = (Reached-self s v, λ p. absurd (ground (arith, p)))
    reach-Reached unknown source s v =
        let (r, m) = reach_unknown-Reached source s v in
        (
          r,
          λ p. elim (kind-cases source.kind) [
            | inl e ↦ absurd (ground (arith, p, e))
            | inr e ↦ m e
          ],
        )
