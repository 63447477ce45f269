-- ===== src/Task/Scheduler/Bounds.antt =====
-- crates/nxr-task/src/scheduler.rs: the job slots and the resource pool are never exceeded, and the
-- counters of the pool are the demands of the running nodes.
use nxr.Base.{ℕ, ◌≤◌, ◌<◌, ◌≡◌, true, false, List, String, arith, length}
use nxr.Base.Order.{string_ord}
use nxr.Base.Words.{u32_max, u64_max}
use nxr.Base.Set
use nxr.Base.Set.{contains, sum}
use nxr.Base.Map
use nxr.Base.{get_or}
use nxr.Task.Resources.{NodeResources, empty_resources, cpu_tokens}
use nxr.Task.Scheduler.State.{
  Scheduler, resources_for, can_acquire_resources, acquire_resources, release_resources,
}
use nxr.Task.Scheduler.Start.{start_node}
use nxr.Task.Scheduler.Exit.{cancel_all_not_started, finish}
use nxr.Task.Scheduler.Loop.{Starts, Keeps}
use nxr.Task.Scheduler.Frame.{Frame, stopped, finish-Frame, cancel_all-Frame}
use nxr.Task.Scheduler.States.{IsSynced, IsSynced-Keeps}

-- The demand of a node by the table of the plan.
abbrev pub tokens : List (String × NodeResources) → String → ℕ
tokens table id = cpu_tokens (get_or (Map.get id table) empty_resources)

abbrev pub bytes : List (String × NodeResources) → String → ℕ
bytes table id = (get_or (Map.get id table) empty_resources).memory_bytes

pub record IsAccounted (s : Scheduler) : Type 0 where
  pub cpu_word : s.resource_limits.cpu_pool < u32_max
  pub memory_word : s.resource_limits.memory_pool < u64_max
  pub sorted : Set.IsSorted s.running_set
  pub slots : length s.running_set ≤ s.jobs
  pub cpu_eq : s.cpu_in_use ≡ sum (tokens s.node_resources) s.running_set
  pub cpu_fits : s.cpu_in_use ≤ s.resource_limits.cpu_pool
  pub memory_eq :
      0 < s.resource_limits.memory_pool
      → s.memory_in_use ≡ sum (bytes s.node_resources) s.running_set
  pub memory_fits :
      0 < s.resource_limits.memory_pool → s.memory_in_use ≤ s.resource_limits.memory_pool

pub record IsSound (s : Scheduler) : Type 0 where
  pub synced : IsSynced s
  pub accounted : IsAccounted s

module _ (s : Scheduler) (id : String) (h : Starts s id) (v : IsSound s) where
  start-absent : contains id s.running_set ≡ false
  start-absent = ground (arith, h.was_ready, v.synced.ready_eq id, v.synced.running_eq id)

  start_node-IsAccounted : IsAccounted (start_node s id)
  unfolding start_node acquire_resources resources_for can_acquire_resources
  start_node-IsAccounted = record {
    cpu_word = v.accounted.cpu_word;
    memory_word = v.accounted.memory_word;
    sorted = Set.insert-IsSorted id s.running_set v.accounted.sorted;
    slots = omega (arith, h.room, Set.length-insert id s.running_set);
    cpu_eq = ground (
      arith,
      h.fits,
      v.accounted.cpu_word,
      v.accounted.cpu_eq,
      Set.sum-insert (tokens s.node_resources) id s.running_set start-absent,
    );
    cpu_fits = ground (arith, h.fits);
    memory_eq = λ p. ground (
      arith,
      h.fits,
      v.accounted.memory_word,
      v.accounted.memory_fits p,
      v.accounted.memory_eq p,
      Set.sum-insert (bytes s.node_resources) id s.running_set start-absent,
    );
    memory_fits = λ p. ground (arith, h.fits, v.accounted.memory_fits p);
  }

Frame-IsAccounted : (s t : Scheduler) → Frame s t → IsAccounted s → IsAccounted t
Frame-IsAccounted s t f v = record {
  cpu_word = rw f.fixed.limits v.cpu_word;
  memory_word = rw f.fixed.limits v.memory_word;
  sorted = rw f.running v.sorted;
  slots = rw (f.running, f.fixed.jobs) v.slots;
  cpu_eq = rw (f.cpu, f.running, f.fixed.resources) v.cpu_eq;
  cpu_fits = rw (f.cpu, f.fixed.limits) v.cpu_fits;
  memory_eq = rw (f.fixed.limits, f.memory, f.running, f.fixed.resources) v.memory_eq;
  memory_fits = rw (f.fixed.limits, f.memory) v.memory_fits;
}

stopped-IsAccounted :
    (s : Scheduler) (node : String)
    → contains node s.running_set ≡ true
    → IsAccounted s
    → IsAccounted (stopped s node)
unfolding release_resources resources_for
stopped-IsAccounted s node runs v = record {
  cpu_word = v.cpu_word;
  memory_word = v.memory_word;
  sorted = Set.remove-IsSorted node s.running_set v.sorted;
  slots = omega (arith, v.slots, Set.length-remove node s.running_set);
  cpu_eq =
      omega (
        arith,
        v.cpu_eq,
        Set.sum-remove (tokens s.node_resources) node s.running_set v.sorted runs,
      );
  cpu_fits = omega (arith, v.cpu_fits);
  memory_eq = λ p. omega (
    arith,
    v.memory_eq p,
    Set.sum-remove (bytes s.node_resources) node s.running_set v.sorted runs,
  );
  memory_fits = λ p. omega (arith, v.memory_fits p);
}

pub IsSound-Keeps : Keeps IsSound
IsSound-Keeps = record {
  starts = λ s id h v. record {
    synced = IsSynced-Keeps.starts s id h v.synced;
    accounted = start_node-IsAccounted s id h v;
  };
  cancels = λ s v. record {
    synced = IsSynced-Keeps.cancels s v.synced;
    accounted = Frame-IsAccounted s (cancel_all_not_started s) (cancel_all-Frame s) v.accounted;
  };
  finishes = λ s node code runs v. record {
    synced = IsSynced-Keeps.finishes s node code runs v.synced;
    accounted =
        Frame-IsAccounted (stopped s node) (finish s node code) (finish-Frame s node code)
          (stopped-IsAccounted s node runs v.accounted);
  };
}
