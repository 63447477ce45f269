-- ===== src/Task/Scheduler/Tests.antt =====
-- crates/nxr-task/src/scheduler.rs: a small plan, run, and the theorems at it.
use nxr.Base.{
  none, ◌≤◌, ◌<◌, ◌≡◌, refl, Bool, true, false, List, [], ◌∷◌, String, arith, length, inl, inr,
}
use nxr.Base.Words.{pos}
use nxr.Base.Set
use nxr.Base.Map
use nxr.Base.Set.{contains, sum}
use nxr.Base.Map.{get}
use nxr.Base.Order.{string_ord}
use nxr.Task.Resources.{NodeResources, empty_resources, from_jobs, cpu_tokens}
use nxr.Task.Plan.{ArgumentForwarding, PlanNode, ExecutionPlan, fail_fast}
use nxr.Task.Scheduler.State.{
  Scheduler, ok, succeeded, failed, cancelled, is_interactive, has_interactive_in_flight,
  resources_for, lock_is_free, can_acquire_resources, hold, acquire_resources, release_resources,
}
use nxr.Task.Scheduler.Start.{
  validate_nodes, validate_schedulability, or_default, register, register_all, link, link_node,
  link_all, seed, empty_scheduler, build, new, pick, start_node, start_loop, schedule_ready, tally,
  tally_all, outcome,
}
use nxr.Task.Scheduler.Exit.{
  is_pending, is_waiting, release_dependency, unlock_child, unlock_children, unlock_dependents,
  waiting_ids, cancel_node, cancel_each, cancel_all_not_started, settle_failure, finish, on_exit,
}
use nxr.Task.Scheduler.Loop.{Reach, here, next, scheduled, exited}
use nxr.Task.Scheduler.Bounds.{tokens, bytes}
use nxr.Task.Scheduler.Runs.{
  locks_exclusive, pool_respected, dependencies_first, life_cycle, interactive-Alone,
}
use nxr.Task.Scheduler.Unmet.{has_succeeded}
use nxr.Task.Scheduler.Life.{Follows}
use nxr.Task.Scheduler.Interactive.{Alone}
use nxr.Task.Scheduler.Saturation.{Saturated, schedule_ready-Saturated}
use nxr.Task.Scheduler.Outcome.{
  outcome_lem, all_where, ids_where, is_succeeded, is_failed, is_cancelled, is_skipped,
}
use nxr.Task.Scheduler.FailFast.{NoneWaits, fail_fast_stops}

abbrev db : NodeResources
db = record { cpu = 1; memory_bytes = 512; exclusive = "db" ∷ [] }

abbrev node : String → List String → Bool → NodeResources → PlanNode
node id deps interactive resources = record {
  id = id;
  depends_on = deps;
  interactive = interactive;
  resources = resources;
  operation = none;
  platform = none;
  architecture = none;
  environment = [];
  working_directory = none;
  artifacts = [];
  inputs = [];
}

-- `b` and `c` wait for `a` and share a lock; `t` takes the terminal.
abbrev nodes : List PlanNode
nodes =
    node "a" [] false empty_resources
    ∷ node "b" ("a" ∷ []) false db
    ∷ node "c" ("a" ∷ []) false db
    ∷ node "t" ("b" ∷ "c" ∷ []) true empty_resources
    ∷ []

abbrev plan : ExecutionPlan
plan = record {
  schema_version = 1;
  root = "t";
  roots = [];
  failure_policy = fail_fast;
  argument_forwarding = ArgumentForwarding.root;
  nodes = nodes;
  serial_order = "a" ∷ "b" ∷ "c" ∷ "t" ∷ [];
  waves = [];
}

program : Unit {0}
unfolding from_jobs cpu_tokens is_interactive has_interactive_in_flight resources_for lock_is_free
    can_acquire_resources hold acquire_resources release_resources validate_nodes
    validate_schedulability or_default register register_all link link_node link_all seed
    empty_scheduler build new pick start_node start_loop schedule_ready tally tally_all outcome
    is_pending is_waiting release_dependency unlock_child unlock_children unlock_dependents
    waiting_ids cancel_node cancel_each cancel_all_not_started settle_failure finish on_exit
    Set.insert Set.remove Map.insert Map.get Map.retain
program = tt

abbrev start : Scheduler
start = build fail_fast 2 (from_jobs 2 1024) nodes

abbrev first : Scheduler
first = (schedule_ready start).0

abbrev second : Scheduler
second = finish first "a" (pos 0)

abbrev third : Scheduler
third = (schedule_ready second).0

abbrev broken : Scheduler
broken = finish third "b" (pos 1)

start-new : new 1024 plan 2 ≡ ok start
unfolding program
start-new = refl

-- `c` stays ready: `b` holds the lock.
third_runs : (third.running_set ≡ "b" ∷ []) × (third.ready_set ≡ "c" ∷ [])
unfolding program
third_runs = (refl, refl)

broken_states :
    broken.states ≡ ("a", succeeded) ∷ ("b", failed) ∷ ("c", cancelled) ∷ ("t", cancelled) ∷ []
unfolding program
broken_states = refl

exit_a : on_exit first "a" (pos 0) ≡ ok second
unfolding program
exit_a = refl

exit_b : on_exit third "b" (pos 1) ≡ ok broken
unfolding program
exit_b = refl

to_second : Reach start second
to_second = next (next here (scheduled refl)) (exited "a" (pos 0) exit_a)

to_third : Reach start third
to_third = next to_second (scheduled refl)

locks_exclusive_example : ◌≡◌ {A = String} "b" "b"
unfolding program
locks_exclusive_example =
    locks_exclusive 1024 plan 2 start third "b" "b" "db" start-new to_third (refl, refl)
      (refl, refl)

pool_respected_example :
    (length third.running_set ≤ 2)
    × (sum (tokens third.node_resources) third.running_set ≤ 2)
    × (0 < 1024 → sum (bytes third.node_resources) third.running_set ≤ 1024)
pool_respected_example =
    pool_respected 1024 plan 2 start third (omega arith) (omega arith) start-new to_third

dependencies_first_example : has_succeeded (get "a" third.states) ≡ true
unfolding program
dependencies_first_example =
    dependencies_first 1024 plan 2 start third (node "b" ("a" ∷ []) false db) "a"
      (refl, (refl, (refl, (refl, tt)))) start-new to_third (inr (inl refl)) refl refl

life_cycle_example : Follows first third
life_cycle_example =
    life_cycle 1024 plan 2 start first third start-new (next here (scheduled refl))
      (next (next here (exited "a" (pos 0) exit_a)) (scheduled refl))

interactive-Alone_example : Alone third
interactive-Alone_example = interactive-Alone 1024 plan 2 start third start-new to_third

schedule_ready-Saturated_example : Saturated (schedule_ready second)
unfolding program
schedule_ready-Saturated_example = schedule_ready-Saturated second refl

fail_fast_stops_example :
    NoneWaits broken
    × ((schedule_ready broken).1 ≡ [])
    × ((n : String) → contains n broken.running_set ≡ true → contains n broken.running_set ≡ true)
unfolding program
fail_fast_stops_example =
    fail_fast_stops 1024 plan 2 start third broken broken "b" (pos 1) start-new to_third refl refl
      exit_b here

outcome_lem_example :
    ((outcome broken).success ≡ all_where is_succeeded broken.states)
    × ((outcome broken).cancelled_run ≡ broken.fail_fast_tripped)
    × ((outcome broken).failed_nodes ≡ ids_where is_failed broken.states)
    × ((outcome broken).cancelled_nodes ≡ ids_where is_cancelled broken.states)
    × ((outcome broken).skipped_nodes ≡ ids_where is_skipped broken.states)
outcome_lem_example = outcome_lem broken

outcome-broken : (outcome broken).cancelled_nodes ≡ "c" ∷ "t" ∷ []
unfolding program
outcome-broken = refl
