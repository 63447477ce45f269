-- ===== src/Task/Scheduler/Locks.antt =====
-- crates/nxr-task/src/scheduler.rs: exclusive locks are held by one running node at a time.
use nxr.Base.{◌≡◌, refl, true, not, List, [], ◌∷◌, some, String, arith, not, all, if◌then◌else◌}
use nxr.Base.Order.{string_ord, eqb, eqb_iff}
use nxr.Base.Set
use nxr.Base.Set.{contains}
use nxr.Base.Map
use nxr.Base.Map.{get}
use nxr.Task.Scheduler.State.{
  Scheduler, resources_for, lock_is_free, can_acquire_resources, hold, acquire_resources,
  release_resources,
}
use nxr.Task.Scheduler.Start.{start_node}
use nxr.Task.Scheduler.Loop.{Starts, Keeps, Reach, Reach-Keeps}
use nxr.Task.Scheduler.Frame.{Frame, stopped, finish-Frame, cancel_all-Frame}

-- `node` runs and its resources name `lock`.
abbrev pub Uses : Scheduler → String → String → Type 0
Uses s node lock =
    (contains node s.running_set ≡ true) × (contains lock (resources_for s node).exclusive ≡ true)

-- A running node holds every lock that it names.
abbrev pub LocksHeld : Scheduler → Type 0
LocksHeld s = (node lock : String) → Uses s node lock → get lock s.held_locks ≡ some node

get-hold :
    (node lock : String) (held : List (String × String)) (locks : List String)
    → get lock (hold node held locks) ≡ (if contains lock locks then some node else get lock held)
unfolding hold
get-hold node lock held [] = refl
get-hold node lock held (l ∷ ls) =
    ground (arith, get-hold node lock (Map.insert l node held) ls, Map.get-insert l lock node held)

free-held :
    (s : Scheduler) (node lock holder : String) (locks : List String)
    → all (lock_is_free s node) locks ≡ true
    → contains lock locks ≡ true
    → get lock s.held_locks ≡ some holder
    → holder ≡ node
unfolding lock_is_free
free-held s node lock holder [] a c h = cc
free-held s node lock holder (l ∷ ls) a c h =
    ground (arith, eqb_iff lock l, eqb_iff holder node, free-held s node lock holder ls)

start_node-LocksHeld :
    (s : Scheduler) (id : String) → Starts s id → LocksHeld s → LocksHeld (start_node s id)
unfolding start_node acquire_resources can_acquire_resources resources_for
start_node-LocksHeld s id h inv node lock uses = ground (
  arith,
  get-hold id lock s.held_locks (resources_for s id).exclusive,
  Set.contains-insert id node s.running_set,
  eqb_iff node id,
  inv node lock,
  free-held s id lock node (resources_for s id).exclusive,
)

Frame-LocksHeld : (s t : Scheduler) → Frame s t → LocksHeld s → LocksHeld t
unfolding resources_for
Frame-LocksHeld s t f inv node lock uses =
    ground (arith, f.running, f.locks, f.fixed.resources, inv node lock)

stopped-LocksHeld : (s : Scheduler) (node : String) → LocksHeld s → LocksHeld (stopped s node)
unfolding release_resources resources_for
stopped-LocksHeld s gone inv node lock uses = ground (
  arith,
  inv node lock,
  eqb_iff gone node,
  eqb_iff node gone,
  Set.contains-remove gone node s.running_set,
  Map.get-retain (λ holder. not (eqb holder gone)) lock node s.held_locks,
)

LocksHeld-Keeps : Keeps LocksHeld
LocksHeld-Keeps = record {
  starts = start_node-LocksHeld;
  cancels = λ s. Frame-LocksHeld s _ (cancel_all-Frame s);
  finishes = λ s node code runs h.
      Frame-LocksHeld (stopped s node) _ (finish-Frame s node code) (stopped-LocksHeld s node h);
}

-- In every state that calls of the scheduler reach from one in which nothing runs, two running nodes
-- that name the same exclusive lock are the same node.
pub Reach-exclusive :
    (start s : Scheduler) (m n lock : String)
    → start.running_set ≡ []
    → Reach start s
    → Uses s m lock
    → Uses s n lock
    → m ≡ n
Reach-exclusive start s m n lock idle r um un =
    let inv =
      Reach-Keeps LocksHeld-Keeps {s = start} {t = s} (λ node l uses. ground (arith, uses.0, idle))
        r in
    ground (arith, inv m lock um, inv n lock un)
