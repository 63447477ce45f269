-- ===== src/Task/Scheduler/Scheduled.antt =====
-- crates/nxr-task/src/scheduler.rs: the order of the dependencies along a run.
use nxr.Base.{◌≡◌, refl, sym, ◌∙◌, true, [], String, arith, if◌then◌else◌, Bool-cases, inl, inr}
use nxr.Base.Order.{string_ord}
use nxr.Base.Words.{ℤ, is_zero}
use nxr.Base.Set.{contains}
use nxr.Base.Map.{get}
use nxr.Task.Rows.{children, IsLinked}
use nxr.Task.Plan.{fail_fast, keep_going}
use nxr.Task.Scheduler.State.{Scheduler, succeeded, failed, acquire_resources, release_resources}
use nxr.Task.Scheduler.Start.{start_node}
use nxr.Task.Scheduler.Exit.{
  unlock_dependents, cancel_all_not_started, cancel_transitive_dependents, settle_failure, finish,
}
use nxr.Task.Scheduler.Frame.{stopped, cancel_all-Frame, finish-Frame}
use nxr.Task.Scheduler.Loop.{Keeps}
use nxr.Task.Scheduler.States.{IsSynced, IsSynced-Keeps, is_running, ended, ended-IsSynced}
use nxr.Task.Scheduler.Order.{
  Ordered, put-IsOrdered, start_node-Ordered, cancel_all-Ordered, skip_loop-Ordered,
}
use nxr.Task.Scheduler.Release.{unlock_children-Ordered, succeed-Ordered}

settle_failure-Ordered :
    (s : Scheduler) (node : String) → IsSynced s → Ordered s [] → Ordered (settle_failure s node) []
unfolding settle_failure cancel_transitive_dependents
settle_failure-Ordered s node y v =
    elim s.failure_policy
      as (λ p.
        Ordered
          (elim p [
            | fail_fast ↦ cancel_all_not_started (record s { fail_fast_tripped = true })
            | keep_going ↦ cancel_transitive_dependents s node
          ])
          []) [
            | fail_fast ↦
                cancel_all-Ordered (record s { fail_fast_tripped = true })
                  (record { sorted = y.sorted; ready_eq = y.ready_eq; running_eq = y.running_eq }) v
            | keep_going ↦ skip_loop-Ordered _ s _ [] v
          ]

-- What a run keeps: the sets agree with the states, and the order of the dependencies is kept.
pub record IsScheduled (s : Scheduler) : Type 0 where
  pub synced : IsSynced s
  pub linked : IsLinked s.dependents
  pub ordered : Ordered s []

finish-Ordered :
    (s : Scheduler) (node : String) (code : ℤ)
    → contains node s.running_set ≡ true
    → IsScheduled s
    → Ordered (finish s node code) []
unfolding finish unlock_dependents release_resources
finish-Ordered s node code runs v =
    let ran : is_running (get node s.states) ≡ true = sym (v.synced.running_eq node) ∙ runs in
    elim (Bool-cases (is_zero code)) [
      | inl e ↦
          rw (e, if◌then◌else◌)
            (unlock_children-Ordered (ended s node succeeded) (children s.dependents node)
              (v.linked.row node)
              (succeed-Ordered s.states s.remaining_deps s.dependents node v.linked ran v.ordered))
      | inr e ↦
          rw (e, if◌then◌else◌)
            (settle_failure-Ordered (ended s node failed) node
              (ended-IsSynced s node failed refl refl runs v.synced)
              (put-IsOrdered node failed s.states s.remaining_deps s.dependents (ground arith) refl
                refl (λ r. ground arith) v.ordered))
    ]

stopped-IsLinked :
    (s : Scheduler) (node : String) → IsLinked s.dependents → IsLinked (stopped s node).dependents
unfolding release_resources
stopped-IsLinked s node l = l

pub IsScheduled-Keeps : Keeps IsScheduled
unfolding start_node acquire_resources
IsScheduled-Keeps = record {
  starts = λ s id h v. record {
    synced = IsSynced-Keeps.starts s id h v.synced;
    linked = v.linked;
    ordered = start_node-Ordered s id h v.synced v.ordered;
  };
  cancels = λ s v. record {
    synced = IsSynced-Keeps.cancels s v.synced;
    linked = rw (cancel_all-Frame s).fixed.dependents v.linked;
    ordered = cancel_all-Ordered s v.synced v.ordered;
  };
  finishes = λ s node code runs v. record {
    synced = IsSynced-Keeps.finishes s node code runs v.synced;
    linked = rw (finish-Frame s node code).fixed.dependents (stopped-IsLinked s node v.linked);
    ordered = finish-Ordered s node code runs v;
  };
}
