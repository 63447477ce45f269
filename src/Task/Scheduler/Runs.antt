-- ===== src/Task/Scheduler/Runs.antt =====
-- crates/nxr-task/src/scheduler.rs: what holds in every state that calls of a scheduler reach from
-- the one that `new` builds.
use Prim.Native.Nat.{max}
use mathlib.Core.Path.{subst}
use nxr.Base.{ℕ, ◌≤◌, ◌<◌, ◌≡◌, ◌∙◌, true, String, arith, length}
use nxr.Base.Order.{string_ord}
use nxr.Base.Words.{u32_max, u64_max}
use nxr.Base.Set.{contains, sum}
use nxr.Base.Map.{get}
use nxr.Task.Resources.{from_jobs}
use nxr.Task.Plan.{PlanNode, ExecutionPlan}
use nxr.Task.Scheduler.State.{Scheduler, ok, release_resources, acquire_resources}
use nxr.Task.Scheduler.Start.{new, start_node}
use nxr.Task.Scheduler.Exit.{cancel_all_not_started, finish}
use nxr.Task.Scheduler.Frame.{
  Fixed, Fixed-refl, Fixed-trans, stopped, cancel_all-Frame, finish-Frame,
}
use nxr.Task.Scheduler.Loop.{Keeps, Reach, Reach-Keeps}
use nxr.Task.Scheduler.Locks.{Uses, Reach-exclusive}
use nxr.Task.Scheduler.Bounds.{IsSound-Keeps, tokens, bytes}
use nxr.Task.Scheduler.Build.{new-eq-ok, new-IsFresh, new-IsSound}
use nxr.Task.Scheduler.States.{IsSynced-Keeps}
use nxr.Task.Scheduler.Life.{Follows, Reach-Follows}
use nxr.Task.Scheduler.Interactive.{Alone, Reach-Alone}
use nxr.Task.Scheduler.Unmet.{has_succeeded, was_released}
use nxr.Task.Scheduler.Scheduled.{IsScheduled, IsScheduled-Keeps}
use nxr.Task.Scheduler.Links.{Has, link_all_links}
use nxr.Task.Scheduler.Registered.{DistinctIds, build-Ordered, build-dependents, table-IsLinked}

start_node-Fixed : (s : Scheduler) (id : String) → Fixed s (start_node s id)
unfolding start_node acquire_resources
start_node-Fixed s id = ground arith

stopped-Fixed : (s : Scheduler) (node : String) → Fixed s (stopped s node)
unfolding release_resources
stopped-Fixed s node = ground arith

Fixed-Keeps : (s : Scheduler) → Keeps (Fixed s)
Fixed-Keeps s = record {
  starts = λ t id h f. Fixed-trans s t (start_node t id) f (start_node-Fixed t id);
  cancels = λ t f. Fixed-trans s t (cancel_all_not_started t) f (cancel_all-Frame t).fixed;
  finishes = λ t node code runs f.
      Fixed-trans s (stopped t node) (finish t node code)
        (Fixed-trans s t (stopped t node) f (stopped-Fixed t node))
        (finish-Frame t node code).fixed;
}

pub Reach-Fixed : (s t : Scheduler) → Reach s t → Fixed s t
Reach-Fixed s t r = Reach-Keeps (Fixed-Keeps s) {s = s} {t = t} (Fixed-refl s) r

-- Two running nodes never name the same exclusive lock.
pub locks_exclusive :
    (env_pool : ℕ) (plan : ExecutionPlan) (jobs : ℕ) (start s : Scheduler) (m n lock : String)
    → new env_pool plan jobs ≡ ok start
    → Reach start s
    → Uses s m lock
    → Uses s n lock
    → m ≡ n
locks_exclusive env_pool plan jobs start s m n lock e r um un =
    Reach-exclusive start s m n lock (new-IsFresh env_pool plan jobs start e).idle r um un

-- In every state that is reached from the scheduler that `new` builds, where the job count is less than
-- 2 ^ 32 - 1 and the memory pool of the environment less than 2 ^ 64 - 1: at most `jobs` nodes run, their
-- CPU tokens are at most `jobs`, or 1 if that is more, and their bytes of memory are at most the memory
-- pool, unless that is 0, which means no limit.
pub pool_respected :
    (env_pool : ℕ) (plan : ExecutionPlan) (jobs : ℕ) (start s : Scheduler)
    → jobs < u32_max
    → env_pool < u64_max
    → new env_pool plan jobs ≡ ok start
    → Reach start s
    → (length s.running_set ≤ jobs)
      × (sum (tokens s.node_resources) s.running_set ≤ max jobs 1)
      × (0 < env_pool → sum (bytes s.node_resources) s.running_set ≤ env_pool)
unfolding from_jobs
pool_respected env_pool plan jobs start s hj hp e r =
    let a =
      (Reach-Keeps IsSound-Keeps {s = start} {t = s} (new-IsSound env_pool plan jobs start hj hp e)
        r).accounted in
    let f = Reach-Fixed start s r in
    let fresh = new-IsFresh env_pool plan jobs start e in
    let same_jobs : s.jobs ≡ jobs = f.jobs ∙ fresh.jobs_eq in
    let same_limits : s.resource_limits ≡ from_jobs jobs env_pool = f.limits ∙ fresh.limits_eq in
    (
      ground (arith, a.slots),
      ground (arith, a.cpu_eq, a.cpu_fits),
      λ p. ground (arith, a.memory_eq, a.memory_fits),
    )

-- A node is ready, running or done only if every dependency that it lists has succeeded, where the
-- ids of the plan are distinct.
pub dependencies_first :
    (env_pool : ℕ) (plan : ExecutionPlan) (jobs : ℕ) (start s : Scheduler) (node : PlanNode)
    (d : String)
    → DistinctIds plan.nodes
    → new env_pool plan jobs ≡ ok start
    → Reach start s
    → Has node plan.nodes
    → contains d node.depends_on ≡ true
    → was_released (get node.id s.states) ≡ true
    → has_succeeded (get d s.states) ≡ true
dependencies_first env_pool plan jobs start s node d distinct e r has dep rel =
    let policy = plan.failure_policy in
    let limits = from_jobs jobs env_pool in
    let made = (new-eq-ok env_pool plan jobs start e).2 in
    let rows = build-dependents policy jobs limits plan.nodes in
    let scheduled : IsScheduled start = subst IsScheduled made (record {
      synced = rw made (new-IsFresh env_pool plan jobs start e).synced;
      linked = rw rows (table-IsLinked policy jobs limits plan.nodes);
      ordered = build-Ordered policy jobs limits plan.nodes distinct;
    }) in
    let inv = Reach-Keeps IsScheduled-Keeps {s = start} {t = s} scheduled r in
    let linked = link_all_links d node plan.nodes _ has dep in
    inv.ordered.met node.id d rel (rw ((Reach-Fixed start s r).dependents, ← made, rows) linked)

-- Between two states of a run every node moves along the life cycle: forward only, never out of a
-- terminal state, from `running` only to `succeeded` or `failed`, and it stays in the plan.
pub life_cycle :
    (env_pool : ℕ) (plan : ExecutionPlan) (jobs : ℕ) (start s t : Scheduler)
    → new env_pool plan jobs ≡ ok start
    → Reach start s
    → Reach s t
    → Follows s t
life_cycle env_pool plan jobs start s t e r q =
    Reach-Follows s t
      (Reach-Keeps IsSynced-Keeps {s = start} {t = s}
        (new-IsFresh env_pool plan jobs start e).synced r)
      q

-- While an interactive node runs, no other node runs.
pub interactive-Alone :
    (env_pool : ℕ) (plan : ExecutionPlan) (jobs : ℕ) (start s : Scheduler)
    → new env_pool plan jobs ≡ ok start
    → Reach start s
    → Alone s
interactive-Alone env_pool plan jobs start s e r =
    let idle = (new-IsFresh env_pool plan jobs start e).idle in
    Reach-Alone {s = start} {t = s} (λ n m c i d. ground arith) r
