-- ===== src/Task/Scheduler/State.antt =====
-- crates/nxr-task/src/scheduler.rs: the scheduler's fields, its queries, and the resource pool.

use Prim.Native.String.{◌++◌ as str_append}
use nxr.Base.{get_or}
use nxr.Base.{
  ℕ, ◌-◌, ◌/◌, ◌%◌, Bool, true, false, not, ◌&&◌, List, [], ◌∷◌, Option, none, some, String, length,
  all, any, if◌then◌else◌, ltb, leb, ◌==◌,
}
use nxr.Base.Order.{eqb, string_ord}
use nxr.Base.Words.{u32_max, u64_max, saturating_add}
use nxr.Base.Decimal.{decimal}
use nxr.Base.Map
use nxr.Task.Resources.{NodeResources, empty_resources, cpu_tokens, ResourceLimits}
use nxr.Task.Plan.{FailurePolicy}

pub data SchedulerError : Type 0 where
  invalid_jobs : (jobs : ℕ) → SchedulerError
  not_running unknown_node : (node : String) → SchedulerError
  unschedulable_cpu : (task : String) (requested_cpu available_cpu : ℕ) → SchedulerError
  unschedulable_memory : (task requested_memory available_memory : String) → SchedulerError

pub data Result {ℓ} (A : Type ℓ) : Type ℓ where
  ok : A → Result A
  err : SchedulerError → Result A

pub data NodeState : Type 0 where
  pending ready running succeeded failed cancelled skipped : NodeState

unfoldable pub is_terminal : NodeState → Bool
is_terminal pending = false
is_terminal ready = false
is_terminal running = false
is_terminal _ = true

pub record Scheduler : Type 0 where
  pub failure_policy : FailurePolicy
  pub jobs : ℕ
  pub resource_limits : ResourceLimits
  pub interactive : List (String × Bool)
  pub node_resources : List (String × NodeResources)
  pub states : List (String × NodeState)
  pub remaining_deps : List (String × ℕ)
  pub dependents : List (String × List String)
  pub ready_set : List String
  pub running_set : List String
  pub held_locks : List (String × String)
  pub cpu_in_use : ℕ
  pub memory_in_use : ℕ
  pub fail_fast_tripped : Bool

abbrev pub is_empty : {A : Type 0} → List A → Bool
is_empty [] = true
is_empty _ = false

unfoldable pub is_interactive : Scheduler → String → Bool
is_interactive s node = get_or (Map.get node s.interactive) false

unfoldable pub has_interactive_in_flight : Scheduler → Bool
has_interactive_in_flight s = any (is_interactive s) s.running_set

unfoldable pub state : Scheduler → String → Option NodeState
state s node = Map.get node s.states

unfoldable pub in_flight : Scheduler → ℕ
in_flight s = length s.running_set

unfoldable pub is_finished : Scheduler → Bool
is_finished s = is_empty s.running_set && is_empty s.ready_set

unfoldable pub resources_for : Scheduler → String → NodeResources
resources_for s node = get_or (Map.get node s.node_resources) empty_resources

-- The holder of every lock that the node wants is the node itself, or nobody.
unfoldable pub lock_is_free : Scheduler → String → String → Bool
lock_is_free s node lock = elim (Map.get lock s.held_locks) [
  | none ↦ true
  | some holder ↦ eqb holder node
]

unfoldable pub can_acquire_resources : Scheduler → String → Bool
can_acquire_resources s node =
    let r = resources_for s node in
    let limits = s.resource_limits in
    not (ltb limits.cpu_pool (saturating_add u32_max s.cpu_in_use (cpu_tokens r)))
    && not (
        ltb 0 r.memory_bytes
        && ltb 0 limits.memory_pool
        && ltb limits.memory_pool (saturating_add u64_max s.memory_in_use r.memory_bytes))
    && all (lock_is_free s node) r.exclusive

unfoldable pub hold : String → List (String × String) → List String → List (String × String)
hold node held [] = held
hold node held (lock ∷ locks) = hold node (Map.insert lock node held) locks

unfoldable pub acquire_resources : Scheduler → String → Scheduler
acquire_resources s node =
    let r = resources_for s node in
    record s {
      cpu_in_use = saturating_add u32_max s.cpu_in_use (cpu_tokens r);
      memory_in_use = saturating_add u64_max s.memory_in_use r.memory_bytes;
      held_locks = hold node s.held_locks r.exclusive;
    }

unfoldable pub release_resources : Scheduler → String → Scheduler
release_resources s node =
    let r = resources_for s node in
    record s {
      cpu_in_use = s.cpu_in_use - cpu_tokens r;
      memory_in_use = s.memory_in_use - r.memory_bytes;
      held_locks = Map.retain (λ holder. not (eqb holder node)) s.held_locks;
    }

-- `KIB`, `MIB` and `GIB` of the source.
abbrev pub kib : ℕ
kib = 1024

abbrev pub mib : ℕ
mib = 1048576

abbrev pub gib : ℕ
gib = 1073741824

unfoldable pub format_memory_bytes : ℕ → String
format_memory_bytes bytes =
    if leb gib bytes && bytes % gib == 0
    then str_append (decimal (bytes / gib)) "GiB"
    else if leb mib bytes && bytes % mib == 0
    then str_append (decimal (bytes / mib)) "MiB"
    else if leb kib bytes && bytes % kib == 0
    then str_append (decimal (bytes / kib)) "KiB"
    else str_append (decimal bytes) "B"
