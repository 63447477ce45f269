-- ===== src/Task/Scheduler/Frame.antt =====
-- crates/nxr-task/src/scheduler.rs: the fields that unlocking, cancelling and skipping leave alone.
use nxr.Base.{
  ℕ, zero, suc, ◌≡◌, refl, ◌∙◌, true, List, [], ◌∷◌, String, arith, if◌then◌else◌, Bool-cases, inl,
  inr,
}
use nxr.Base.Set
use nxr.Base.Map
use nxr.Base.Order.{string_ord}
use nxr.Base.Words.{ℤ, is_zero}
use nxr.Base.Map
use nxr.Base.Words.{ℤ}
use nxr.Task.Scheduler.State.{Scheduler, succeeded, failed, release_resources}
use nxr.Task.Scheduler.Exit.{
  release_dependency, unlock_child, unlock_children, unlock_dependents, cancel_node, cancel_each,
  cancel_all_not_started, skip_node, visit, skip_loop, cancel_transitive_dependents, settle_failure,
  finish,
}

-- What the plan fixes.
pub record Fixed (s t : Scheduler) : Type 0 where
  pub jobs : t.jobs ≡ s.jobs
  pub limits : t.resource_limits ≡ s.resource_limits
  pub resources : t.node_resources ≡ s.node_resources
  pub interactive : t.interactive ≡ s.interactive
  pub dependents : t.dependents ≡ s.dependents
  pub policy : t.failure_policy ≡ s.failure_policy

-- What the running nodes hold.
pub record Frame (s t : Scheduler) : Type 0 where
  pub fixed : Fixed s t
  pub running : t.running_set ≡ s.running_set
  pub locks : t.held_locks ≡ s.held_locks
  pub cpu : t.cpu_in_use ≡ s.cpu_in_use
  pub memory : t.memory_in_use ≡ s.memory_in_use

pub Fixed-refl : (s : Scheduler) → Fixed s s
Fixed-refl s = record {
  jobs = refl;
  limits = refl;
  resources = refl;
  interactive = refl;
  dependents = refl;
  policy = refl;
}

pub Fixed-trans : (s t u : Scheduler) → Fixed s t → Fixed t u → Fixed s u
Fixed-trans s t u f g = record {
  jobs = g.jobs ∙ f.jobs;
  limits = g.limits ∙ f.limits;
  resources = g.resources ∙ f.resources;
  interactive = g.interactive ∙ f.interactive;
  dependents = g.dependents ∙ f.dependents;
  policy = g.policy ∙ f.policy;
}

pub Frame-refl : (s : Scheduler) → Frame s s
Frame-refl s = record {
  fixed = Fixed-refl s;
  running = refl;
  locks = refl;
  cpu = refl;
  memory = refl;
}

pub Frame-trans : (s t u : Scheduler) → Frame s t → Frame t u → Frame s u
Frame-trans s t u f g = record {
  fixed = Fixed-trans s t u f.fixed g.fixed;
  running = g.running ∙ f.running;
  locks = g.locks ∙ f.locks;
  cpu = g.cpu ∙ f.cpu;
  memory = g.memory ∙ f.memory;
}

pub unlock_child-Frame : (s : Scheduler) (child : String) → Frame s (unlock_child s child)
unfolding unlock_child release_dependency
unlock_child-Frame s child = ground arith

pub unlock_children-Frame :
    (s : Scheduler) (children : List String) → Frame s (unlock_children s children)
unfolding unlock_children
unlock_children-Frame s [] = Frame-refl s
unlock_children-Frame s (c ∷ cs) =
    Frame-trans s (unlock_child s c) (unlock_children (unlock_child s c) cs)
      (unlock_child-Frame s c) (unlock_children-Frame (unlock_child s c) cs)

pub unlock_dependents-Frame : (s : Scheduler) (node : String) → Frame s (unlock_dependents s node)
unfolding unlock_dependents
unlock_dependents-Frame s node = unlock_children-Frame s _

cancel_node-Frame : (s : Scheduler) (id : String) → Frame s (cancel_node s id)
unfolding cancel_node
cancel_node-Frame s id = ground arith

cancel_each-Frame : (s : Scheduler) (ids : List String) → Frame s (cancel_each s ids)
unfolding cancel_each
cancel_each-Frame s [] = Frame-refl s
cancel_each-Frame s (c ∷ cs) =
    Frame-trans s (cancel_node s c) (cancel_each (cancel_node s c) cs) (cancel_node-Frame s c)
      (cancel_each-Frame (cancel_node s c) cs)

pub cancel_all-Frame : (s : Scheduler) → Frame s (cancel_all_not_started s)
unfolding cancel_all_not_started
cancel_all-Frame s = cancel_each-Frame s _

visit-Frame : (s : Scheduler) (id : String) (stack : List String) → Frame s (visit s id stack).0
unfolding visit skip_node
visit-Frame s id stack = ground arith

skip_loop-Frame :
    (fuel : ℕ) (s : Scheduler) (stack seen : List String) → Frame s (skip_loop fuel s stack seen)
unfolding skip_loop
skip_loop-Frame zero s stack seen = Frame-refl s
skip_loop-Frame (suc fuel) s [] seen = Frame-refl s
skip_loop-Frame (suc fuel) s (id ∷ stack) seen = elim (Bool-cases (Set.contains id seen)) [
  | inl e ↦ rw (e, skip_loop) (skip_loop-Frame fuel s stack seen)
  | inr e ↦
      let (t, stack') = visit s id stack in
      rw (e, skip_loop)
        (Frame-trans s t (skip_loop fuel t stack' (Set.insert id seen)) (visit-Frame s id stack)
          (skip_loop-Frame fuel t stack' (Set.insert id seen)))
]

pub skip-Frame : (s : Scheduler) (node : String) → Frame s (cancel_transitive_dependents s node)
unfolding cancel_transitive_dependents
skip-Frame s node = skip_loop-Frame _ s _ []

pub settle-Frame : (s : Scheduler) (node : String) → Frame s (settle_failure s node)
unfolding settle_failure
settle-Frame s node =
    ground (arith, cancel_all-Frame (record s { fail_fast_tripped = true }), skip-Frame s node)

-- What `on_exit` takes off the running nodes before it settles the others.
abbrev pub stopped : Scheduler → String → Scheduler
stopped s node = release_resources (record s { running_set = Set.remove node s.running_set }) node

pub finish-Frame :
    (s : Scheduler) (node : String) (code : ℤ) → Frame (stopped s node) (finish s node code)
unfolding finish
finish-Frame s node code =
    let t = stopped s node in
    let done = record t { states = Map.insert node succeeded t.states } in
    let broken = record t { states = Map.insert node failed t.states } in
    elim (Bool-cases (is_zero code)) [
      | inl e ↦
          rw (e, if◌then◌else◌)
            (Frame-trans t done (unlock_dependents done node) (ground arith)
              (unlock_dependents-Frame done node))
      | inr e ↦
          rw (e, if◌then◌else◌)
            (Frame-trans t broken (settle_failure broken node) (ground arith)
              (settle-Frame broken node))
    ]
