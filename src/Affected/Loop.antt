-- ===== src/Affected/Loop.antt =====
-- crates/nxr-affected/src/analyze.rs: the loop of `propagate_dependencies`, and what it leaves marked.
use nxr.Base.{
  ℕ, zero, suc, ◌+◌, ◌<◌, ◌≡◌, refl, ap, true, List, [], ◌∷◌, Option, none, some, String, arith,
  get_or, length, Option-cases, List-cases, Bool-cases, ◌⊎◌, inl, inr,
}
use nxr.Base.Order.{string_ord, eqb, eqb_iff, eqb_self}
use nxr.Base.Set.{contains}
use nxr.Base.Map.{get}
use nxr.Task.Rows.{children}
use nxr.Affected.Graph.{app, task, GraphNode, AffectedGraph}
use nxr.Affected.Marks.{NodeStatus, affected, unaffected, unknown, is_marked}
use nxr.Affected.Analyze.{Spread, reach, reach_unknown, reach_all, spread_from, spread_loop}
use nxr.Affected.Spread.{Spreading, passes, is_some, status_of, pending}
use nxr.Affected.Reach.{Reached, Reached-self, Reached-trans, reach-Reached, kind-cases}

reach_all-idle :
    (source : GraphNode) (keys : List String) (s : Spread)
    → source.kind ≡ app
    → reach_all unknown source keys s ≡ s
unfolding reach_all reach reach_unknown
reach_all-idle source [] s e = refl
reach_all-idle source (c ∷ keys) s e =
    let step : reach_unknown source c s ≡ s = rw (e, reach_unknown) refl in
    rw step (reach_all-idle source keys s e)

-- The dependents of every node are tasks.
abbrev pub TaskChildren : AffectedGraph → Type 0
TaskChildren graph =
    (k c : String) (node : GraphNode)
    → contains c (children graph.dependents k) ≡ true
    → get c graph.nodes ≡ some node
    → node.kind ≡ task

module _ (graph : AffectedGraph) (kinds : TaskChildren graph) where
  reach_all-Reached :
      (busy : List String) (k : String) (status : NodeStatus) (source : GraphNode)
      (keys : List String) (s : Spread)
      → ((c : String) → contains c keys ≡ true → contains c (children graph.dependents k) ≡ true)
      → Spreading graph busy s
      → Reached graph busy s (reach_all status source keys s)
        × (passes (some status) source.kind ≡ true
            → (c : String) → contains c keys ≡ true
            → is_marked (status_of (reach_all status source keys s) c) ≡ true)
  unfolding reach_all
  reach_all-Reached busy k status source [] s sub v = (Reached-self graph busy s v, λ p c h. cc)
  reach_all-Reached busy k status source (c ∷ keys) s sub v =
      let child = sub c (ground (arith, eqb_self c)) in
      let (first, here) =
        reach-Reached graph busy k c child (λ node g. kinds k c node child g) status source s v in
      let (rest, all) =
        reach_all-Reached busy k status source keys (reach status source c s)
          (λ d h. sub d (ground (arith, h))) first.spreading in
      (
        Reached-trans graph busy s (reach status source c s) _ first rest,
        λ p d h. elim (Bool-cases (contains d keys)) [
          | inl e ↦ all p d e
          | inr e ↦
              let same : d ≡ c = ground (arith, h, e, eqb_iff d c) in rw same (rest.kept c (here p))
        ],
      )

  -- Once the children of a node are worked off, the node is settled.
  settle_node :
      (key : String) (source : GraphNode) (s s' : Spread)
      → get key graph.nodes ≡ some source
      → Spreading graph (key ∷ []) s'
      → (passes (status_of s' key) source.kind ≡ true
          → (c : String) → contains c (children graph.dependents key) ≡ true
          → is_marked (status_of s' c) ≡ true)
      → Spreading graph [] s'
  settle_node key source s s' g v all = record {
    sorted = v.sorted;
    listed = v.listed;
    marked = v.marked;
    queued = v.queued;
    settled = λ k c node e q g' p h. elim (Bool-cases (eqb k key)) [
      | inr n ↦ v.settled k c node e (ground (arith, q, n)) g' p h
      | inl n ↦
          let same : k ≡ key = ground (arith, n, eqb_iff k key) in
          let node_same : node ≡ source = ground (arith, g, g', same) in
          all (ground (arith, p, same, node_same)) c (ground (arith, h, same))
    ];
  }

  marked-status : (o : Option NodeStatus) → is_marked o ≡ true → o ≡ some (get_or o unknown)
  marked-status none h = cc
  marked-status (some st) h = refl

  status-cases : (st : NodeStatus) → is_marked (some st) ≡ true → (st ≡ affected) ⊎ (st ≡ unknown)
  status-cases affected h = inl refl
  status-cases unaffected h = cc
  status-cases unknown h = inr refl

  passes_task : (o : Option NodeStatus) → is_marked o ≡ true → passes o task ≡ true
  passes_task none h = cc
  passes_task (some affected) h = refl
  passes_task (some unaffected) h = cc
  passes_task (some unknown) h = refl

  -- The children of a node that passes in the end are marked.
  passed_on :
      (key : String) (st : NodeStatus) (source : GraphNode) (s : Spread)
      → Spreading graph (key ∷ []) s
      → status_of s key ≡ some st
      → is_marked (some st) ≡ true
      → let s' = reach_all st source (children graph.dependents key) s in
        passes (status_of s' key) source.kind ≡ true
        → (c : String) → contains c (children graph.dependents key) ≡ true
        → is_marked (status_of s' c) ≡ true
  passed_on key st source s v e m p =
      let s' = reach_all st source (children graph.dependents key) s in
      let (r, all) =
        reach_all-Reached (key ∷ []) key st source (children graph.dependents key) s (λ c h. h) v in
      elim (kind-cases source.kind) [
        | inr k ↦ all (rw k (passes_task (some st) m))
        | inl k ↦ elim (status-cases st m) [
          | inl a ↦ all (rw (k, a) refl)
          | inr u ↦
              let idle : s' ≡ s =
                rw u (reach_all-idle source (children graph.dependents key) s k) in
              absurd (ground (arith, p, k, ap (λ t. status_of t key) idle, e, u))
        ]
      ]

  spread_from-Spreading :
      (key : String) (s : Spread)
      → Spreading graph (key ∷ []) s
      → contains key s.enqueued ≡ true
      → Spreading graph [] (spread_from graph key s)
        × Reached graph (key ∷ []) s (spread_from graph key s)
  unfolding spread_from
  spread_from-Spreading key s v h = elim (Option-cases (get key graph.nodes)) [
    | inl g ↦
        rw (g, spread_from)
          (
            record {
              sorted = v.sorted;
              listed = v.listed;
              marked = v.marked;
              queued = v.queued;
              settled = λ k c node e q g' p j.
                  v.settled k c node e (ground (arith, q, g, g', eqb_iff k key)) g' p j;
            },
            Reached-self graph (key ∷ []) s v,
          )
    | inr (source, g) ↦
        let st = get_or (status_of s key) unknown in
        let e = marked-status (status_of s key) (v.marked key h) in
        let m : is_marked (some st) ≡ true = ground (arith, e, v.marked key h) in
        let (r, all) =
          reach_all-Reached (key ∷ []) key st source (children graph.dependents key) s (λ c j. j)
            v in
        rw (g, spread_from)
          (
            settle_node key source s (reach_all st source (children graph.dependents key) s) g
                r.spreading (passed_on key st source s v e m),
            r,
          )
  ]

  pub spread_loop-Spreading :
      (fuel : ℕ) (s : Spread)
      → length s.queue + pending s.enqueued graph.dependents < fuel
      → Spreading graph [] s
      → Spreading graph [] (spread_loop fuel graph s)
        × ((spread_loop fuel graph s).queue ≡ [])
        × ((j : String)
            → is_some (status_of s j) ≡ true
            → is_some (status_of (spread_loop fuel graph s) j) ≡ true)
  unfolding spread_loop
  spread_loop-Spreading zero s f v = absurd (omega (arith, f))
  spread_loop-Spreading (suc fuel) s f v = elim (List-cases s.queue) [
    | inl e ↦ rw (e, spread_loop) (v, e, λ j h. h)
    | inr (key, queue, e) ↦
        let popped : Spread = record s { queue = queue } in
        let start : Spreading graph (key ∷ []) popped = record {
          sorted = v.sorted;
          listed = v.listed;
          marked = v.marked;
          queued = λ k h. v.queued k (ground (arith, e, h));
          settled = λ k c node i q g p h. v.settled k c node i (ground (arith, e, q)) g p h;
        } in
        let (next, r) =
          spread_from-Spreading key popped start (v.queued key (ground (arith, e, eqb_self key))) in
        let (last, empty, stays) =
          spread_loop-Spreading fuel (spread_from graph key popped)
            (ground (arith, f, r.less, ap length e)) next in
        rw (e, spread_loop) (last, empty, λ j h. stays j (r.stays j h))
  ]
