-- ===== src/Task/Scheduler/Build.antt =====
-- crates/nxr-task/src/scheduler.rs: the scheduler that `new` builds.
use mathlib.Core.Path.{subst}
use nxr.Base.{
  ℕ, ◌<◌, ◌≡◌, ◌≢◌, refl, Bool, true, false, List, [], ◌∷◌, Option, none, some, String, arith,
  if◌then◌else◌, ◌==◌,
}
use nxr.Base.Order.{string_ord}
use nxr.Base.Words.{u32_max, u64_max}
use nxr.Base.Set
use nxr.Base.Set.{contains}
use nxr.Base.Map
use nxr.Base.Map.{get}
use nxr.Task.Resources.{ResourceLimits, from_jobs}
use nxr.Task.Plan.{FailurePolicy, PlanNode, ExecutionPlan}
use nxr.Task.Scheduler.State.{Scheduler, NodeState, pending, ready, ok}
use nxr.Task.Scheduler.Start.{
  validate_nodes, validate_schedulability, register, register_all, link_all, seed, empty_scheduler,
  build, new,
}
use nxr.Task.Scheduler.States.{IsSynced}
use nxr.Task.Scheduler.Bounds.{IsAccounted, IsSound}

-- Nothing has been started yet.
pub record IsFresh (policy : FailurePolicy) (jobs : ℕ) (limits : ResourceLimits) (s : Scheduler)
    : Type 0 where
  pub policy_eq : s.failure_policy ≡ policy
  pub jobs_eq : s.jobs ≡ jobs
  pub limits_eq : s.resource_limits ≡ limits
  pub idle : s.running_set ≡ []
  pub unlocked : s.held_locks ≡ []
  pub no_cpu : s.cpu_in_use ≡ 0
  pub no_memory : s.memory_in_use ≡ 0
  pub not_tripped : s.fail_fast_tripped ≡ false
  pub synced : IsSynced s

abbrev is_blank : Option NodeState → Bool
is_blank none = true
is_blank (some pending) = true
is_blank _ = false

-- No node has left `pending`.
record IsBlank (s : Scheduler) : Type 0 where
  none_ready : s.ready_set ≡ []
  all_pending : (n : String) → is_blank (get n s.states) ≡ true

abbrev seeded : Scheduler → String → Scheduler
seeded s id = record s {
  ready_set = Set.insert id s.ready_set;
  states = Map.insert id ready s.states;
}

module _ (policy : FailurePolicy) (jobs : ℕ) (limits : ResourceLimits) where
  register-IsFresh :
      (s : Scheduler) (node : PlanNode)
      → IsFresh policy jobs limits s
      → IsBlank s
      → IsFresh policy jobs limits (register s node) × IsBlank (register s node)
  unfolding register
  register-IsFresh s node f b = (
    record {
      policy_eq = f.policy_eq;
      jobs_eq = f.jobs_eq;
      limits_eq = f.limits_eq;
      idle = f.idle;
      unlocked = f.unlocked;
      no_cpu = f.no_cpu;
      no_memory = f.no_memory;
      not_tripped = f.not_tripped;
      synced = record {
        sorted = Map.insert-IsSorted node.id pending s.states f.synced.sorted;
        ready_eq = λ n.
            ground
              (arith, f.synced.ready_eq n, b.none_ready, Map.get-insert node.id n pending s.states);
        running_eq = λ n.
            ground
              (arith, f.synced.running_eq n, f.idle, Map.get-insert node.id n pending s.states);
      };
    },
    record {
      none_ready = b.none_ready;
      all_pending = λ n. ground (arith, b.all_pending n, Map.get-insert node.id n pending s.states);
    },
  )

  register_all-IsFresh :
      (s : Scheduler) (nodes : List PlanNode)
      → IsFresh policy jobs limits s
      → IsBlank s
      → IsFresh policy jobs limits (register_all s nodes)
  unfolding register_all
  register_all-IsFresh s [] f b = f
  register_all-IsFresh s (node ∷ nodes) f b =
      let (f', b') = register-IsFresh s node f b in
      register_all-IsFresh (register s node) nodes f' b'

  seeded-IsFresh :
      (s : Scheduler) (id : String)
      → IsFresh policy jobs limits s
      → IsFresh policy jobs limits (seeded s id)
  seeded-IsFresh s id f = record {
    policy_eq = f.policy_eq;
    jobs_eq = f.jobs_eq;
    limits_eq = f.limits_eq;
    idle = f.idle;
    unlocked = f.unlocked;
    no_cpu = f.no_cpu;
    no_memory = f.no_memory;
    not_tripped = f.not_tripped;
    synced = record {
      sorted = Map.insert-IsSorted id ready s.states f.synced.sorted;
      ready_eq = λ n. ground (
        arith,
        f.synced.ready_eq n,
        Map.get-insert id n ready s.states,
        Set.contains-insert id n s.ready_set,
      );
      running_eq =
          λ n. ground (arith, f.synced.running_eq n, f.idle, Map.get-insert id n ready s.states);
    };
  }

  seed-IsFresh :
      (s : Scheduler) (rest : List (String × ℕ))
      → IsFresh policy jobs limits s
      → IsFresh policy jobs limits (seed s rest)
  unfolding seed
  seed-IsFresh s [] f = f
  seed-IsFresh s ((id, deg) ∷ rest) f =
      seed-IsFresh (if deg == 0 then seeded s id else s) rest
        (elim (deg == 0) as (λ b. IsFresh policy jobs limits (if b then seeded s id else s)) [
          | true ↦ seeded-IsFresh s id f
          | false ↦ f
        ])

  empty-IsFresh : IsFresh policy jobs limits (empty_scheduler policy jobs limits)
  unfolding empty_scheduler get
  empty-IsFresh = ground arith

  linked-IsFresh :
      (s : Scheduler) (m : List (String × List String))
      → IsFresh policy jobs limits s
      → IsFresh policy jobs limits (record s { dependents = m })
  linked-IsFresh s m f = record {
    policy_eq = f.policy_eq;
    jobs_eq = f.jobs_eq;
    limits_eq = f.limits_eq;
    idle = f.idle;
    unlocked = f.unlocked;
    no_cpu = f.no_cpu;
    no_memory = f.no_memory;
    not_tripped = f.not_tripped;
    synced = record {
      sorted = f.synced.sorted;
      ready_eq = f.synced.ready_eq;
      running_eq = f.synced.running_eq;
    };
  }

  pub build-IsFresh :
      (nodes : List PlanNode) → IsFresh policy jobs limits (build policy jobs limits nodes)
  unfolding build empty_scheduler get
  build-IsFresh nodes =
      let s = register_all (empty_scheduler policy jobs limits) nodes in
      seed-IsFresh (record s { dependents = link_all nodes s.dependents }) s.remaining_deps
        (linked-IsFresh s (link_all nodes s.dependents) (
          register_all-IsFresh (empty_scheduler policy jobs limits) nodes empty-IsFresh
            (record { none_ready = refl; all_pending = λ n. refl })))

pub new-eq-ok :
    (env_pool : ℕ) (plan : ExecutionPlan) (jobs : ℕ) (s : Scheduler)
    → new env_pool plan jobs ≡ ok s
    → (jobs ≢ 0)
      × (validate_nodes s.resource_limits s.node_resources ≡ none)
      × (build plan.failure_policy jobs (from_jobs jobs env_pool) plan.nodes ≡ s)
unfolding new validate_schedulability
new-eq-ok env_pool plan jobs s e = ground arith

-- The scheduler of a plan is idle, and its pool is within the words of the machine.
pub new-IsFresh :
    (env_pool : ℕ) (plan : ExecutionPlan) (jobs : ℕ) (s : Scheduler)
    → new env_pool plan jobs ≡ ok s
    → IsFresh plan.failure_policy jobs (from_jobs jobs env_pool) s
new-IsFresh env_pool plan jobs s e =
    subst (IsFresh plan.failure_policy jobs (from_jobs jobs env_pool))
      (new-eq-ok env_pool plan jobs s e).2
      (build-IsFresh plan.failure_policy jobs (from_jobs jobs env_pool) plan.nodes)

IsFresh-IsAccounted :
    (policy : FailurePolicy) (jobs env_pool : ℕ) (s : Scheduler)
    → jobs < u32_max
    → env_pool < u64_max
    → IsFresh policy jobs (from_jobs jobs env_pool) s
    → IsAccounted s
unfolding from_jobs
IsFresh-IsAccounted policy jobs env_pool s hj hp f = record {
  cpu_word = ground (arith, f.limits_eq);
  memory_word = ground (arith, f.limits_eq);
  sorted = rw f.idle tt;
  slots = rw f.idle (omega arith);
  cpu_eq = rw (f.idle, f.no_cpu);
  cpu_fits = omega (arith, f.no_cpu);
  memory_eq = λ p. rw (f.idle, f.no_memory);
  memory_fits = λ p. omega (arith, f.no_memory);
}

pub new-IsSound :
    (env_pool : ℕ) (plan : ExecutionPlan) (jobs : ℕ) (s : Scheduler)
    → jobs < u32_max
    → env_pool < u64_max
    → new env_pool plan jobs ≡ ok s
    → IsSound s
new-IsSound env_pool plan jobs s hj hp e =
    let f = new-IsFresh env_pool plan jobs s e in
    record {
      synced = f.synced;
      accounted = IsFresh-IsAccounted plan.failure_policy jobs env_pool s hj hp f;
    }
