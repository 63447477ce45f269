-- ===== src/Task/Scheduler/States.antt =====
-- crates/nxr-task/src/scheduler.rs: the ready and running sets agree with the states of the nodes.
use nxr.Base.{
  ℕ, zero, suc, ◌≡◌, refl, sym, ◌∙◌, Bool, true, false, ◌||◌, List, [], ◌∷◌, Option, none, some,
  String, arith, if◌then◌else◌, Bool-cases, Option-cases, inl, inr,
}
use nxr.Base.Order.{string_ord, eqb_iff, eqb_self}
use nxr.Base.Words.{ℤ, is_zero}
use nxr.Base.Set
use nxr.Base.Set.{contains}
use nxr.Base.Map
use nxr.Base.Map.{get}
use nxr.Task.Plan.{fail_fast, keep_going}
use nxr.Task.Scheduler.State.{
  Scheduler, NodeState, ready, running, succeeded, failed, cancelled, skipped, release_resources,
  acquire_resources,
}
use nxr.Task.Scheduler.Start.{start_node}
use nxr.Task.Scheduler.Exit.{
  is_waiting, is_pending, release_dependency, unlock_child, unlock_children, unlock_dependents,
  waiting_ids, cancel_node, cancel_each, cancel_all_not_started, skip_node, visit, skip_loop,
  cancel_transitive_dependents, settle_failure, finish,
}
use nxr.Task.Scheduler.Frame.{stopped}
use nxr.Task.Scheduler.Loop.{Starts, Keeps}

abbrev pub is_ready : Option NodeState → Bool
is_ready (some ready) = true
is_ready _ = false

abbrev pub is_running : Option NodeState → Bool
is_running (some running) = true
is_running _ = false

abbrev pub waits : Option NodeState → Bool
waits none = false
waits (some st) = is_waiting st

pub record IsSynced (s : Scheduler) : Type 0 where
  pub sorted : Map.IsSorted s.states
  pub ready_eq : (n : String) → contains n s.ready_set ≡ is_ready (get n s.states)
  pub running_eq : (n : String) → contains n s.running_set ≡ is_running (get n s.states)

start_node-IsSynced :
    (s : Scheduler) (id : String) → Starts s id → IsSynced s → IsSynced (start_node s id)
unfolding start_node acquire_resources
start_node-IsSynced s id h v = record {
  sorted = Map.insert-IsSorted id running s.states v.sorted;
  ready_eq = λ n. ground (
    arith,
    v.ready_eq n,
    Map.get-insert id n running s.states,
    Set.contains-remove id n s.ready_set,
    eqb_iff n id,
    eqb_iff id n,
  );
  running_eq = λ n. ground (
    arith,
    v.running_eq n,
    Map.get-insert id n running s.states,
    Set.contains-insert id n s.running_set,
  );
}

-- A node that waits is taken out of the ready set and settled as `st`.
abbrev settle : Scheduler → String → NodeState → Scheduler
settle s id st = record s {
  ready_set = Set.remove id s.ready_set;
  states = Map.insert id st s.states;
}

settle-IsSynced :
    (s : Scheduler) (id : String) (st : NodeState)
    → is_ready (some st) ≡ false
    → is_running (some st) ≡ false
    → is_running (get id s.states) ≡ false
    → IsSynced s
    → IsSynced (settle s id st)
settle-IsSynced s id st hr hn w v = record {
  sorted = Map.insert-IsSorted id st s.states v.sorted;
  ready_eq = λ n. ground (
    arith,
    v.ready_eq n,
    Map.get-insert id n st s.states,
    Set.contains-remove id n s.ready_set,
    eqb_iff n id,
    eqb_iff id n,
  );
  running_eq = λ n. ground (arith, v.running_eq n, Map.get-insert id n st s.states, eqb_iff n id);
}

-- The ids to cancel are the nodes that wait.
pub waiting_ids_lem :
    (n : String) (m : List (String × NodeState))
    → Map.IsSorted m
    → contains n (waiting_ids m) ≡ waits (get n m)
unfolding waiting_ids get is_waiting
waiting_ids_lem n [] h = refl
waiting_ids_lem n ((id, st) ∷ m) h =
    ground (arith, waiting_ids_lem n m h.1, eqb_iff n id, Map.Before-get id m h.0)

-- None of the nodes runs.
abbrev Stopped : Scheduler → List String → Type 0
Stopped s ids = (n : String) → contains n ids ≡ true → is_running (get n s.states) ≡ false

cancel_each-IsSynced :
    (s : Scheduler) (ids : List String) → Stopped s ids → IsSynced s → IsSynced (cancel_each s ids)
unfolding cancel_each cancel_node
cancel_each-IsSynced s [] h v = v
cancel_each-IsSynced s (id ∷ ids) h v =
    cancel_each-IsSynced (settle s id cancelled) ids
      (λ n c. ground (arith, h n, Map.get-insert id n cancelled s.states))
      (settle-IsSynced s id cancelled refl refl (h id (rw (eqb_self id, ◌||◌))) v)

waits-not-running : (o : Option NodeState) → waits o ≡ true → is_running o ≡ false
unfolding is_waiting
waits-not-running o h = ground arith

cancel_all-IsSynced : (s : Scheduler) → IsSynced s → IsSynced (cancel_all_not_started s)
unfolding cancel_all_not_started
cancel_all-IsSynced s v =
    cancel_each-IsSynced s (waiting_ids s.states)
      (λ n c. waits-not-running _ (sym (waiting_ids_lem n s.states v.sorted) ∙ c)) v

visit-IsSynced :
    (s : Scheduler) (id : String) (stack : List String) → IsSynced s → IsSynced (visit s id stack).0
unfolding visit skip_node
visit-IsSynced s id stack v =
    let skipped_one = settle-IsSynced s id skipped refl refl in
    elim (Option-cases (get id s.states)) [
      | inl e ↦ rw (e, visit) v
      | inr (st, e) ↦
          rw (e, visit)
            (elim (Bool-cases (is_waiting st)) [
              | inl w ↦
                  rw (w, if◌then◌else◌) (skipped_one (waits-not-running _ (rw (e, waits) w)) v)
              | inr w ↦ rw (w, if◌then◌else◌) v
            ])
    ]

skip_loop-IsSynced :
    (fuel : ℕ) (s : Scheduler) (stack seen : List String)
    → IsSynced s
    → IsSynced (skip_loop fuel s stack seen)
unfolding skip_loop
skip_loop-IsSynced zero s stack seen v = v
skip_loop-IsSynced (suc fuel) s [] seen v = v
skip_loop-IsSynced (suc fuel) s (id ∷ stack) seen v = elim (Bool-cases (contains id seen)) [
  | inl e ↦ rw (e, skip_loop) (skip_loop-IsSynced fuel s stack seen v)
  | inr e ↦
      rw (e, skip_loop)
        (skip_loop-IsSynced fuel (visit s id stack).0 (visit s id stack).1 (Set.insert id seen)
          (visit-IsSynced s id stack v))
]

unlock_child-IsSynced :
    (s : Scheduler) (child : String) → IsSynced s → IsSynced (unlock_child s child)
unfolding unlock_child release_dependency is_pending
unlock_child-IsSynced s c v = record {
  sorted = ground (arith, v.sorted, Map.insert-IsSorted c ready s.states);
  ready_eq = λ n.
      ground (
        arith,
        v.ready_eq n,
        Map.get-insert c n ready s.states,
        Set.contains-insert c n s.ready_set,
      );
  running_eq = λ n. ground (arith, v.running_eq n, Map.get-insert c n ready s.states, eqb_iff n c);
}

unlock_children-IsSynced :
    (s : Scheduler) (cs : List String) → IsSynced s → IsSynced (unlock_children s cs)
unfolding unlock_children
unlock_children-IsSynced s [] v = v
unlock_children-IsSynced s (c ∷ cs) v =
    unlock_children-IsSynced (unlock_child s c) cs (unlock_child-IsSynced s c v)

-- A node that runs stops and is recorded as `st`.
abbrev pub ended : Scheduler → String → NodeState → Scheduler
ended s node st = let t = stopped s node in record t { states = Map.insert node st t.states }

pub ended-IsSynced :
    (s : Scheduler) (node : String) (st : NodeState)
    → is_ready (some st) ≡ false
    → is_running (some st) ≡ false
    → contains node s.running_set ≡ true
    → IsSynced s
    → IsSynced (ended s node st)
unfolding release_resources
ended-IsSynced s node st hr hn runs v = record {
  sorted = Map.insert-IsSorted node st s.states v.sorted;
  ready_eq = λ n.
      ground
        (arith, v.ready_eq n, v.running_eq node, Map.get-insert node n st s.states, eqb_iff n node);
  running_eq = λ n. ground (
    arith,
    v.running_eq n,
    Map.get-insert node n st s.states,
    Set.contains-remove node n s.running_set,
    eqb_iff n node,
    eqb_iff node n,
  );
}

settle_failure-IsSynced :
    (s : Scheduler) (node : String) → IsSynced s → IsSynced (settle_failure s node)
unfolding settle_failure cancel_transitive_dependents
settle_failure-IsSynced s node v =
    elim s.failure_policy
      as (λ p. IsSynced (elim p [
        | fail_fast ↦ cancel_all_not_started (record s { fail_fast_tripped = true })
        | keep_going ↦ cancel_transitive_dependents s node
      ])) [
        | fail_fast ↦
            cancel_all-IsSynced (record s { fail_fast_tripped = true })
              (record { sorted = v.sorted; ready_eq = v.ready_eq; running_eq = v.running_eq })
        | keep_going ↦ skip_loop-IsSynced _ s _ [] v
      ]

finish-IsSynced :
    (s : Scheduler) (node : String) (code : ℤ)
    → contains node s.running_set ≡ true
    → IsSynced s
    → IsSynced (finish s node code)
unfolding finish unlock_dependents
finish-IsSynced s node code runs v = elim (Bool-cases (is_zero code)) [
  | inl e ↦
      rw (e, if◌then◌else◌)
        (unlock_children-IsSynced (ended s node succeeded) _
          (ended-IsSynced s node succeeded refl refl runs v))
  | inr e ↦
      rw (e, if◌then◌else◌)
        (settle_failure-IsSynced (ended s node failed) node
          (ended-IsSynced s node failed refl refl runs v))
]

pub IsSynced-Keeps : Keeps IsSynced
IsSynced-Keeps = record {
  starts = start_node-IsSynced;
  cancels = cancel_all-IsSynced;
  finishes = finish-IsSynced;
}
