-- ===== src/Affected/Spread.antt =====
-- crates/nxr-affected/src/analyze.rs: the invariant of the loop of `propagate_dependencies`.
use nxr.Base.{
  ℕ, ◌+◌, ◌≤◌, ◌≡◌, Bool, true, false, ◌&&◌, ◌||◌, List, [], ◌∷◌, Option, none, some, String, arith,
  if◌then◌else◌, length, length-append, Bool-cases, inl, inr,
}
use nxr.Base.Order.{string_ord, eqb, eqb_iff}
use nxr.Base.Set
use nxr.Base.Set.{contains}
use nxr.Base.Map
use nxr.Base.Map.{get}
use nxr.Task.Rows.{Dependents, children, one_if}
use nxr.Task.Graph.Expand.{contains-append}
use nxr.Affected.Graph.{NodeKind, app, task, GraphNode, AffectedGraph}
use nxr.Affected.Marks.{NodeStatus, affected, unaffected, unknown, set_status, is_marked}
use nxr.Affected.Analyze.{Spread, enqueue, mark_child}

-- Whether a node of that status and kind makes its dependents marked.
abbrev pub passes : Option NodeStatus → NodeKind → Bool
passes none kind = false
passes (some affected) kind = true
passes (some unaffected) kind = false
passes (some unknown) app = false
passes (some unknown) task = true

abbrev pub is_some : Option NodeStatus → Bool
is_some none = false
is_some (some st) = true

abbrev pub status_of : Spread → String → Option NodeStatus
status_of s k = get k s.marks.status

-- The nodes that were taken from the queue have marked what depends on them; `busy` are those being
-- worked on.
pub record Spreading (graph : AffectedGraph) (busy : List String) (s : Spread) : Type 0 where
  pub sorted : Map.IsSorted s.marks.status
  pub listed : (k : String) → is_marked (status_of s k) ≡ true → contains k s.enqueued ≡ true
  pub marked : (k : String) → contains k s.enqueued ≡ true → is_marked (status_of s k) ≡ true
  pub queued : (k : String) → contains k s.queue ≡ true → contains k s.enqueued ≡ true
  pub settled :
      (k c : String) (node : GraphNode)
      → contains k s.enqueued ≡ true
      → (contains k s.queue || contains k busy) ≡ false
      → get k graph.nodes ≡ some node
      → passes (status_of s k) node.kind ≡ true
      → contains c (children graph.dependents k) ≡ true
      → is_marked (status_of s c) ≡ true

-- The entries of the rows that were not queued yet.
unfoldable pub waiting : List String → List String → ℕ
waiting enqueued [] = 0
waiting enqueued (c ∷ row) =
    one_if (if contains c enqueued then false else true) + waiting enqueued row

unfoldable pub pending : List String → Dependents → ℕ
pending enqueued [] = 0
pending enqueued ((k, row) ∷ rows) = waiting enqueued row + pending enqueued rows

waiting-insert :
    (x : String) (enqueued row : List String)
    → contains x enqueued ≡ false
    → waiting (Set.insert x enqueued) row + one_if (contains x row) ≤ waiting enqueued row
unfolding waiting
waiting-insert x enqueued [] h = omega arith
waiting-insert x enqueued (c ∷ row) h = ground (
  arith,
  h,
  waiting-insert x enqueued row h,
  Set.contains-insert x c enqueued,
  eqb_iff c x,
  eqb_iff x c,
)

pub pending-insert :
    (x k : String) (enqueued : List String) (rows : Dependents)
    → contains x enqueued ≡ false
    → pending (Set.insert x enqueued) rows + one_if (contains x (children rows k))
      ≤ pending enqueued rows
unfolding pending get
pending-insert x k enqueued [] h = omega arith
pending-insert x k enqueued ((j, row) ∷ rows) h =
    ground (arith, waiting-insert x enqueued row h, pending-insert x k enqueued rows h, eqb_iff k j)

pub mark_child-status :
    (c j : String) (status : NodeStatus) (s : Spread)
    → status_of (mark_child c status s) j ≡ (if eqb j c then some status else status_of s j)
unfolding mark_child enqueue set_status
mark_child-status c j status s = ground (arith, Map.get-insert c j status s.marks.status)

mark_child-enqueued :
    (c j : String) (status : NodeStatus) (s : Spread)
    → contains j (mark_child c status s).enqueued ≡ (eqb j c || contains j s.enqueued)
unfolding mark_child enqueue
mark_child-enqueued c j status s = ground (arith, Set.contains-insert c j s.enqueued, eqb_iff j c)

mark_child-queue :
    (c j : String) (status : NodeStatus) (s : Spread)
    → contains j (mark_child c status s).queue
      ≡ (contains j s.queue || (eqb j c && (if contains c s.enqueued then false else true)))
unfolding mark_child enqueue
mark_child-queue c j status s = ground (arith, contains-append j s.queue (c ∷ []), eqb_iff j c)

pub mark_child-size :
    (c k : String) (status : NodeStatus) (s : Spread) (rows : Dependents)
    → contains c (children rows k) ≡ true
    → length (mark_child c status s).queue + pending (mark_child c status s).enqueued rows
      ≤ length s.queue + pending s.enqueued rows
unfolding mark_child enqueue
mark_child-size c k status s rows h = elim (Bool-cases (contains c s.enqueued)) [
  | inl e ↦ ground (arith, e)
  | inr e ↦
      ground (arith, e, h, pending-insert c k s.enqueued rows e, length-append s.queue (c ∷ []))
]

module _ (graph : AffectedGraph) (busy : List String) (c : String) (status : NodeStatus)
    (s : Spread) (v : Spreading graph busy s)
    (kinds : (node : GraphNode) → get c graph.nodes ≡ some node → node.kind ≡ task)
    (m : is_marked (some status) ≡ true) where
  pub mark_child-kept :
      (j : String)
      → is_marked (status_of s j) ≡ true
      → is_marked (status_of (mark_child c status s) j) ≡ true
  mark_child-kept j h = ground (arith, h, m, mark_child-status c j status s)

  -- A node that was settled passed before, if it passes now: its status changed from unknown, as a task.
  passed_before :
      (j : String) (node : GraphNode)
      → contains j s.enqueued ≡ true
      → get j graph.nodes ≡ some node
      → passes (status_of (mark_child c status s) j) node.kind ≡ true
      → passes (status_of s j) node.kind ≡ true
  passed_before j node e g p = elim (Bool-cases (eqb j c)) [
    | inr n ↦ ground (arith, p, n, mark_child-status c j status s)
    | inl n ↦
        let same : j ≡ c = ground (arith, n, eqb_iff j c) in
        let kind : node.kind ≡ task = kinds node (ground (arith, g, same)) in
        grind (arith, kind, v.marked j e)
  ]

  mark_child-IsSorted : Map.IsSorted (mark_child c status s).marks.status
  unfolding mark_child enqueue set_status
  mark_child-IsSorted = elim (Bool-cases (contains c s.enqueued)) [
    | inl e ↦ rw (e, enqueue) (Map.insert-IsSorted c status s.marks.status v.sorted)
    | inr e ↦ rw (e, enqueue) (Map.insert-IsSorted c status s.marks.status v.sorted)
  ]

  pub mark_child-Spreading : Spreading graph busy (mark_child c status s)
  mark_child-Spreading = record {
    sorted = mark_child-IsSorted;
    listed = λ j h.
        ground
          (arith, h, v.listed j, mark_child-status c j status s, mark_child-enqueued c j status s);
    marked = λ j h.
        ground (
          arith,
          h,
          m,
          v.marked j,
          mark_child-status c j status s,
          mark_child-enqueued c j status s,
        );
    queued = λ j h.
        ground
          (arith, h, v.queued j, mark_child-queue c j status s, mark_child-enqueued c j status s);
    settled = λ j d node e q g p h.
        let old : contains j s.enqueued ≡ true = ground (
          arith,
          e,
          q,
          eqb_iff j c,
          mark_child-queue c j status s,
          mark_child-enqueued c j status s,
        ) in
        mark_child-kept d (
          v.settled j d node old (ground (arith, q, mark_child-queue c j status s)) g
            (passed_before j node old g p) h);
  }
