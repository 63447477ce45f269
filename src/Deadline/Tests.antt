-- ===== src/Deadline/Tests.antt =====
-- crates/nxr-process/src/deadline.rs: three nodes, one cancelled, and a node that is scheduled again.
use nxr.Base.{ℕ, true, not, ◌&&◌, ltb, any, filter, ◌≡◌, refl, false, [], ◌∷◌, arith}
use nxr.Base.Order.{number_ord}
use nxr.Base.Set
use nxr.Base.Set.{contains}
use nxr.Deadline.Queue.{DeadlineQueue, new, heap_push, insert, cancel, pop_loop, pop_expired}
use nxr.Deadline.Order.{pop_expired_state, insert_expires}
use nxr.Deadline.Expired.{Ascending, is_due, pop_expired_lem}

abbrev queue : DeadlineQueue
queue = record {
  heap = (5, 1) ∷ (7, 2) ∷ (20, 3) ∷ [];
  cancelled = 2 ∷ [];
  scheduled = 1 ∷ 2 ∷ 3 ∷ [];
}

built : cancel (insert (insert (insert new 2 7) 3 20) 1 5) 2 ≡ queue
unfolding cancel insert heap_push Set.insert Set.remove
built = refl

-- A cancelled deadline comes back when its node is scheduled again.
resurrected : (pop_expired (insert (cancel (insert new 1 5) 1) 1 50) 10).0 ≡ 1 ∷ []
unfolding pop_expired pop_loop cancel insert heap_push Set.insert Set.remove
resurrected = refl

pop_expired_lem_example : contains 2 (pop_expired queue 10).0 ≡ false
pop_expired_lem_example =
    pop_expired_lem queue 10 2 ((omega arith, (omega arith, tt)), ((omega arith, tt), (tt, tt)))
      (refl, (refl, (refl, tt)))

abbrev queue_ascends : Ascending queue.heap
queue_ascends = ((omega arith, (omega arith, tt)), ((omega arith, tt), (tt, tt)))

pop_expired_state_example :
    ((pop_expired queue 10).1.heap ≡ filter (λ f. ltb 10 f.0) queue.heap)
    × ((n : ℕ)
        → contains n (pop_expired queue 10).1.scheduled
          ≡ (contains n queue.scheduled && not (any (is_due 10 n) queue.heap)))
    × ((n : ℕ)
        → contains n (pop_expired queue 10).1.cancelled
          ≡ (contains n queue.cancelled && not (any (is_due 10 n) queue.heap)))
pop_expired_state_example = pop_expired_state queue 10 queue_ascends

insert_expires_example : contains 2 (pop_expired (insert queue 2 9) 10).0 ≡ true
insert_expires_example = insert_expires queue 2 9 10 queue_ascends (omega arith)
