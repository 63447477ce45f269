-- ===== src/Task/Scheduler/FailFast.antt =====
-- crates/nxr-task/src/scheduler.rs: after a failure under the fail-fast policy nothing is started.
use nxr.Base.{
  ℕ, ◌≡◌, refl, sym, ◌∙◌, true, false, List, [], ◌∷◌, Option, some, String, arith, if◌then◌else◌,
}
use nxr.Base.Order.{string_ord}
use nxr.Base.Words.{ℤ, is_zero}
use nxr.Base.Set.{contains}
use nxr.Base.Map
use nxr.Base.Map.{get}
use nxr.Task.Plan.{ExecutionPlan, fail_fast}
use nxr.Task.Scheduler.State.{Scheduler, NodeState, failed, cancelled, ok, release_resources}
use nxr.Task.Scheduler.Start.{new, schedule_ready}
use nxr.Task.Scheduler.Exit.{
  is_waiting, waiting_ids, cancel_node, cancel_each, cancel_all_not_started, settle_failure, finish,
  on_exit,
}
use nxr.Task.Scheduler.States.{
  IsSynced, IsSynced-Keeps, is_running, waits, waiting_ids_lem, ended, ended-IsSynced,
}
use nxr.Task.Scheduler.Life.{later?, Reach-Follows}
use nxr.Task.Scheduler.Build.{new-IsFresh}
use nxr.Task.Scheduler.Loop.{Reach, Step, Reach-Keeps, on_exit-eq-ok}

cancel_each-state :
    (s : Scheduler) (ids : List String) (n : String)
    → get n (cancel_each s ids).states ≡ (if contains n ids then some cancelled else get n s.states)
unfolding cancel_each cancel_node
cancel_each-state s [] n = refl
cancel_each-state s (id ∷ ids) n =
    ground
      (arith, cancel_each-state (cancel_node s id) ids n, Map.get-insert id n cancelled s.states)

cancel_each-tripped :
    (s : Scheduler) (ids : List String)
    → (cancel_each s ids).fail_fast_tripped ≡ s.fail_fast_tripped
unfolding cancel_each cancel_node
cancel_each-tripped s [] = refl
cancel_each-tripped s (id ∷ ids) = cancel_each-tripped (cancel_node s id) ids

-- Nothing waits any more.
abbrev pub NoneWaits : Scheduler → Type 0
NoneWaits s = (n : String) → waits (get n s.states) ≡ false

cancel_all-NoneWaits : (s : Scheduler) → IsSynced s → NoneWaits (cancel_all_not_started s)
unfolding cancel_all_not_started is_waiting
cancel_all-NoneWaits s v n =
    ground
      (arith, cancel_each-state s (waiting_ids s.states) n, waiting_ids_lem n s.states v.sorted)

module _ (s t : Scheduler) (node : String) (code : ℤ) (v : IsSynced s)
    (policy : s.failure_policy ≡ fail_fast) (broke : is_zero code ≡ false)
    (done : on_exit s node code ≡ ok t) where
  failed_state :
      t ≡ cancel_all_not_started (record (ended s node failed) { fail_fast_tripped = true })
  unfolding finish settle_failure release_resources
  failed_state = sym (on_exit-eq-ok s node code t done).1 ∙ ground arith

  failed-NoneWaits : NoneWaits t
  failed-NoneWaits =
      let e = ended-IsSynced s node failed refl refl (on_exit-eq-ok s node code t done).0 v in
      rw failed_state (
        cancel_all-NoneWaits (record (ended s node failed) { fail_fast_tripped = true })
          (record { sorted = e.sorted; ready_eq = e.ready_eq; running_eq = e.running_eq }))

  failed_tripped : t.fail_fast_tripped ≡ true
  unfolding cancel_all_not_started
  failed_tripped =
      rw failed_state
        (cancel_each-tripped (record (ended s node failed) { fail_fast_tripped = true }) _)

started_none : (t : Scheduler) → t.fail_fast_tripped ≡ true → (schedule_ready t).1 ≡ []
unfolding schedule_ready
started_none t e = rw e

ran_before :
    (a b : Option NodeState)
    → waits a ≡ false
    → later? a b ≡ true
    → is_running b ≡ true
    → is_running a ≡ true
unfolding is_waiting
ran_before a b w l r = ground arith

-- When a node of a run fails under the fail-fast policy, no node is left waiting, the next call of
-- `schedule_ready` starts nothing, and whatever runs at any later time was running already.
pub fail_fast_stops :
    (env_pool : ℕ) (plan : ExecutionPlan) (jobs : ℕ) (start s t u : Scheduler) (node : String)
    (code : ℤ)
    → new env_pool plan jobs ≡ ok start
    → Reach start s
    → s.failure_policy ≡ fail_fast
    → is_zero code ≡ false
    → on_exit s node code ≡ ok t
    → Reach t u
    → NoneWaits t
      × ((schedule_ready t).1 ≡ [])
      × ((n : String) → contains n u.running_set ≡ true → contains n t.running_set ≡ true)
fail_fast_stops env_pool plan jobs start s t u node code e r p b d q =
    let v =
      Reach-Keeps IsSynced-Keeps {s = start} {t = s} (new-IsFresh env_pool plan jobs start e).synced
        r in
    let vt =
      Reach-Keeps IsSynced-Keeps {s = s} {t = t} v
        (Reach.next Reach.here (Step.exited node code d)) in
    let vu = Reach-Keeps IsSynced-Keeps {s = t} {t = u} vt q in
    let none_waits = failed-NoneWaits s t node code v p b d in
    (
      none_waits,
      started_none t (failed_tripped s t node code v p b d),
      λ n runs.
          vt.running_eq n
          ∙ ran_before (get n t.states) (get n u.states) (none_waits n) (Reach-Follows t u vt q n)
              (sym (vu.running_eq n) ∙ runs),
    )
