-- ===== src/Task/Scheduler/Outcome.antt =====
-- crates/nxr-task/src/scheduler.rs: the outcome is read off the states.
use mathlib.Core.List.{append_assoc, append-nil}
use nxr.Base.{
  ◌≡◌, ap, and_true, and_false, Bool, true, false, ◌&&◌, List, [], ◌∷◌, ◌++◌, String, if◌then◌else◌,
}
use nxr.Task.Scheduler.State.{Scheduler, NodeState, succeeded, failed, cancelled, skipped}
use nxr.Task.Scheduler.Start.{ScheduleOutcome, tally, tally_all, outcome}

abbrev pub is_succeeded : NodeState → Bool
is_succeeded succeeded = true
is_succeeded _ = false

abbrev pub is_failed : NodeState → Bool
is_failed failed = true
is_failed _ = false

abbrev pub is_cancelled : NodeState → Bool
is_cancelled cancelled = true
is_cancelled _ = false

abbrev pub is_skipped : NodeState → Bool
is_skipped skipped = true
is_skipped _ = false

-- The ids of the nodes in some state, in the order of the table.
abbrev pub ids_where : (NodeState → Bool) → List (String × NodeState) → List String
ids_where p [] = []
ids_where p ((id, st) ∷ m) = let rest = ids_where p m in if p st then id ∷ rest else rest

abbrev pub all_where : (NodeState → Bool) → List (String × NodeState) → Bool
all_where p [] = true
all_where p ((id, st) ∷ m) = p st && all_where p m

tally_all_lem :
    (m : List (String × NodeState)) (o : ScheduleOutcome)
    → tally_all o m ≡ record o {
      success = o.success && all_where is_succeeded m;
      failed_nodes = o.failed_nodes ++ ids_where is_failed m;
      cancelled_nodes = o.cancelled_nodes ++ ids_where is_cancelled m;
      skipped_nodes = o.skipped_nodes ++ ids_where is_skipped m;
    }
unfolding tally_all tally
tally_all_lem [] o = simp (append-nil, and_true)
tally_all_lem ((id, succeeded) ∷ m) o = rw (tally_all_lem m (tally o id succeeded))
tally_all_lem ((id, failed) ∷ m) o =
    rw (tally_all_lem m (tally o id failed)) (simp (append_assoc, and_false))
tally_all_lem ((id, cancelled) ∷ m) o =
    rw (tally_all_lem m (tally o id cancelled)) (simp (append_assoc, and_false))
tally_all_lem ((id, skipped) ∷ m) o =
    rw (tally_all_lem m (tally o id skipped)) (simp (append_assoc, and_false))
tally_all_lem ((id, st) ∷ m) o = rw (tally_all_lem m (tally o id st)) (simp and_false)

-- The outcome reports success exactly when every node has succeeded, and lists the failed, the
-- cancelled and the skipped nodes in the order of their ids; it is cancelled when fail-fast tripped.
pub outcome_lem :
    (s : Scheduler)
    → ((outcome s).success ≡ all_where is_succeeded s.states)
      × ((outcome s).cancelled_run ≡ s.fail_fast_tripped)
      × ((outcome s).failed_nodes ≡ ids_where is_failed s.states)
      × ((outcome s).cancelled_nodes ≡ ids_where is_cancelled s.states)
      × ((outcome s).skipped_nodes ≡ ids_where is_skipped s.states)
unfolding outcome
outcome_lem s =
    let e = tally_all_lem s.states (record {
      success = true;
      cancelled_run = s.fail_fast_tripped;
      failed_nodes = [];
      cancelled_nodes = [];
      skipped_nodes = [];
    }) in
    (
      ap (λ o. o.success) e,
      ap (λ o. o.cancelled_run) e,
      ap (λ o. o.failed_nodes) e,
      ap (λ o. o.cancelled_nodes) e,
      ap (λ o. o.skipped_nodes) e,
    )
