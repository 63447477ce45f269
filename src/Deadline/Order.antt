-- ===== src/Deadline/Order.antt =====
-- crates/nxr-process/src/deadline.rs: the order of the entries.
use nxr.Base.{
  filter, ℕ, ◌≤◌, ◌<◌, ◌≡◌, refl, Bool, true, false, not, ◌&&◌, ◌||◌, List, [], ◌∷◌, ltb, arith,
  any, All,
}
use nxr.Base.Order.{number_ord, eqb_iff, eqb_self}
use nxr.Base.Set
use nxr.Base.Set.{contains}
use nxr.Deadline.Queue.{Entry, DeadlineQueue, heap_push, insert, pop_loop, pop_expired}
use nxr.Deadline.Expired.{Ascending, is_due, none_due}

above : (d c : ℕ) (heap : List Entry) → d ≤ c → All (λ f. c ≤ f.0) heap → All (λ f. d ≤ f.0) heap
above d c [] h a = tt
above d c (e ∷ heap) h a = (omega (arith, h, a.0), above d c heap h a.1)

heap_push-above :
    (d : ℕ) (e : Entry) (heap : List Entry)
    → d ≤ e.0
    → All (λ f. d ≤ f.0) heap
    → All (λ f. d ≤ f.0) (heap_push e heap)
unfolding heap_push
heap_push-above d e [] h a = (h, tt)
heap_push-above d e (f ∷ heap) h a = ground (arith, h, a.0, a.1, heap_push-above d e heap h a.1)

pub heap_push-Ascending :
    (e : Entry) (heap : List Entry) → Ascending heap → Ascending (heap_push e heap)
unfolding heap_push
heap_push-Ascending e [] a = (tt, tt)
heap_push-Ascending e (f ∷ heap) a = ground (
  arith,
  a.0,
  a.1,
  above e.0 f.0 heap,
  heap_push-above f.0 e heap,
  heap_push-Ascending e heap a.1,
)

filter_later :
    (now d : ℕ) (heap : List Entry)
    → now < d
    → All (λ f. d ≤ f.0) heap
    → filter (λ f. ltb now f.0) heap ≡ heap
filter_later now d [] h a = refl
filter_later now d (e ∷ heap) h a = ground (arith, h, a.0, filter_later now d heap h a.1)

-- The heap keeps the entries that are not due, and the two sets lose the nodes of those that are.
record Popped (now : ℕ) (heap : List Entry) (cancelled scheduled : List ℕ) (q : DeadlineQueue)
    : Type 0 where
  pub heap_eq : q.heap ≡ filter (λ f. ltb now f.0) heap
  pub scheduled_eq :
      (n : ℕ) → contains n q.scheduled ≡ (contains n scheduled && not (any (is_due now n) heap))
  pub cancelled_eq :
      (n : ℕ) → contains n q.cancelled ≡ (contains n cancelled && not (any (is_due now n) heap))

pop_loop-Popped :
    (now : ℕ) (heap : List Entry) (cancelled scheduled : List ℕ)
    → Ascending heap
    → Popped now heap cancelled scheduled (pop_loop now heap cancelled scheduled).1
unfolding pop_loop
pop_loop-Popped now [] cancelled scheduled a = record {
  heap_eq = refl;
  scheduled_eq = λ n. ground arith;
  cancelled_eq = λ n. ground arith;
}
pop_loop-Popped now ((d, m) ∷ heap) cancelled scheduled a =
    let taken = pop_loop-Popped now heap cancelled (Set.remove m scheduled) a.1 in
    let skipped = pop_loop-Popped now heap (Set.remove m cancelled) (Set.remove m scheduled) a.1 in
    record {
      heap_eq = ground (arith, a.0, filter_later now d heap, taken.heap_eq, skipped.heap_eq);
      scheduled_eq = λ n. ground (
        arith,
        none_due now n d heap a.0,
        eqb_iff n m,
        eqb_iff m n,
        Set.contains-remove m n scheduled,
        taken.scheduled_eq n,
        skipped.scheduled_eq n,
      );
      cancelled_eq = λ n. ground (
        arith,
        none_due now n d heap a.0,
        eqb_iff n m,
        eqb_iff m n,
        Set.contains-remove m n cancelled,
        taken.cancelled_eq n,
        skipped.cancelled_eq n,
      );
    }

pop_loop-due :
    (now node : ℕ) (heap : List Entry) (cancelled scheduled : List ℕ)
    → Ascending heap
    → contains node cancelled ≡ false
    → any (is_due now node) heap ≡ true
    → contains node (pop_loop now heap cancelled scheduled).0 ≡ true
unfolding pop_loop
pop_loop-due now node [] cancelled scheduled a c h = cc
pop_loop-due now node ((d, m) ∷ heap) cancelled scheduled a c h = ground (
  arith,
  c,
  h,
  none_due now node d heap a.0,
  eqb_iff node m,
  eqb_iff m node,
  Set.contains-remove m node cancelled,
  pop_loop-due now node heap cancelled (Set.remove m scheduled) a.1,
  pop_loop-due now node heap (Set.remove m cancelled) (Set.remove m scheduled) a.1,
)

any-heap_push :
    (p : Entry → Bool) (e : Entry) (heap : List Entry)
    → any p (heap_push e heap) ≡ (p e || any p heap)
unfolding heap_push
any-heap_push p e [] = ground arith
any-heap_push p e (f ∷ heap) = ground (arith, any-heap_push p e heap)

-- Where the deadlines ascend along the heap, `pop_expired` leaves in the heap just the entries whose
-- deadline is later than its time, in their order, and takes the nodes of the other entries out of the
-- scheduled and of the cancelled ones, and no other node.
pub pop_expired_state :
    (q : DeadlineQueue) (now : ℕ)
    → Ascending q.heap
    → ((pop_expired q now).1.heap ≡ filter (λ f. ltb now f.0) q.heap)
      × ((n : ℕ)
          → contains n (pop_expired q now).1.scheduled
            ≡ (contains n q.scheduled && not (any (is_due now n) q.heap)))
      × ((n : ℕ)
          → contains n (pop_expired q now).1.cancelled
            ≡ (contains n q.cancelled && not (any (is_due now n) q.heap)))
unfolding pop_expired
pop_expired_state q now a =
    let v = pop_loop-Popped now q.heap q.cancelled q.scheduled a in
    (v.heap_eq, v.scheduled_eq, v.cancelled_eq)

-- A node whose deadline is not later than a time is among the nodes that expire at it, after it was
-- inserted into a queue whose deadlines ascend, be it cancelled there or not.
pub insert_expires :
    (q : DeadlineQueue) (node deadline now : ℕ)
    → Ascending q.heap
    → deadline ≤ now
    → contains node (pop_expired (insert q node deadline) now).0 ≡ true
unfolding insert pop_expired
insert_expires q node deadline now a h =
    pop_loop-due now node (heap_push (deadline, node) q.heap) (Set.remove node q.cancelled)
      (Set.insert node q.scheduled) (heap_push-Ascending (deadline, node) q.heap a)
      (ground (arith, Set.contains-remove node node q.cancelled, eqb_self node))
      (ground (arith, h, eqb_self node, any-heap_push (is_due now node) (deadline, node) q.heap))
