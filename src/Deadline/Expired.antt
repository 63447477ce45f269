-- ===== src/Deadline/Expired.antt =====
-- crates/nxr-process/src/deadline.rs: which nodes expire.
use nxr.Base.{ℕ, ◌≤◌, ◌≡◌, refl, Bool, true, false, not, ◌&&◌, List, [], ◌∷◌, ltb, arith, any, All}
use nxr.Base.Order.{number_ord, eqb, eqb_iff}
use nxr.Base.Set
use nxr.Base.Set.{contains}
use nxr.Deadline.Queue.{Entry, DeadlineQueue, pop_loop, pop_expired}

-- Deadlines ascend along the heap.
abbrev pub Ascending : List Entry → Type 0
Ascending [] = Unit
Ascending (e ∷ heap) = All (λ f. e.0 ≤ f.0) heap × Ascending heap

abbrev pub entry_of : ℕ → Entry → Bool
entry_of node e = eqb e.1 node

-- Every node has one entry at most.
abbrev pub OneEach : List Entry → Type 0
OneEach [] = Unit
OneEach (e ∷ heap) = (any (entry_of e.1) heap ≡ false) × OneEach heap

-- An entry of the node is due.
abbrev pub is_due : ℕ → ℕ → Entry → Bool
is_due now node e = eqb e.1 node && not (ltb now e.0)

pub none_due :
    (now node d : ℕ) (heap : List Entry)
    → All (λ f. d ≤ f.0) heap
    → ltb now d ≡ true
    → any (is_due now node) heap ≡ false
none_due now node d [] a h = refl
none_due now node d (e ∷ heap) a h = ground (arith, a.0, h, none_due now node d heap a.1 h)

absent_due :
    (now node : ℕ) (heap : List Entry)
    → any (entry_of node) heap ≡ false
    → any (is_due now node) heap ≡ false
absent_due now node [] h = refl
absent_due now node (e ∷ heap) h = ground (arith, h, absent_due now node heap)

pop_loop_lem :
    (now node : ℕ) (heap : List Entry) (cancelled scheduled : List ℕ)
    → Ascending heap
    → OneEach heap
    → contains node (pop_loop now heap cancelled scheduled).0
      ≡ (any (is_due now node) heap && not (contains node cancelled))
unfolding pop_loop
pop_loop_lem now node [] cancelled scheduled a o = refl
pop_loop_lem now node ((d, n) ∷ heap) cancelled scheduled a o = ground (
  arith,
  none_due now node d heap a.0,
  absent_due now n heap o.0,
  eqb_iff n node,
  eqb_iff node n,
  Set.contains-remove n node cancelled,
  pop_loop_lem now node heap cancelled (Set.remove n scheduled) a.1 o.1,
  pop_loop_lem now node heap (Set.remove n cancelled) (Set.remove n scheduled) a.1 o.1,
)

-- Where the deadlines ascend along the heap and every node has one entry at most, the nodes that expire
-- are those whose deadline is due and that are not cancelled.
pub pop_expired_lem :
    (q : DeadlineQueue) (now node : ℕ)
    → Ascending q.heap
    → OneEach q.heap
    → contains node (pop_expired q now).0
      ≡ (any (is_due now node) q.heap && not (contains node q.cancelled))
unfolding pop_expired
pop_expired_lem q now node a o = pop_loop_lem now node q.heap q.cancelled q.scheduled a o
