-- ===== src/Task/Scheduler/Life.antt =====
-- crates/nxr-task/src/scheduler.rs: the life cycle of a node.
use nxr.Base.{
  ℕ, zero, suc, ◌≡◌, refl, sym, ◌∙◌, Bool, true, false, List, [], ◌∷◌, Option, none, some, String,
  arith, if◌then◌else◌, Bool-cases, inl, inr,
}
use nxr.Base.Order.{string_ord, eqb_iff, eqb_self}
use nxr.Base.Words.{ℤ, is_zero}
use nxr.Base.Set
use nxr.Base.Set.{contains}
use nxr.Base.Map
use nxr.Base.Map.{get}
use nxr.Task.Plan.{fail_fast, keep_going}
use nxr.Task.Scheduler.State.{
  Scheduler, NodeState, pending, ready, running, succeeded, failed, cancelled, skipped,
  acquire_resources, release_resources,
}
use nxr.Task.Scheduler.Start.{start_node}
use nxr.Task.Scheduler.Exit.{
  is_waiting, is_pending, release_dependency, unlock_child, unlock_children, unlock_dependents,
  waiting_ids, cancel_node, cancel_each, cancel_all_not_started, skip_node, visit, skip_loop,
  cancel_transitive_dependents, settle_failure, finish,
}
use nxr.Task.Scheduler.Loop.{Starts, Keeps, Reach, Reach-Keeps}
use nxr.Task.Scheduler.States.{
  IsSynced, IsSynced-Keeps, is_running, waits, waiting_ids_lem, ended, ended-IsSynced,
}

-- Whether a node may go from the first state to the second, in any number of calls.
abbrev pub later : NodeState → NodeState → Bool
later pending _ = true
later ready pending = false
later ready _ = true
later running running = true
later running succeeded = true
later running failed = true
later succeeded succeeded = true
later failed failed = true
later cancelled cancelled = true
later skipped skipped = true
later _ _ = false

abbrev pub later? : Option NodeState → Option NodeState → Bool
later? none none = true
later? (some a) (some b) = later a b
later? _ _ = false

later?-trans :
    (a b c : Option NodeState) → later? a b ≡ true → later? b c ≡ true → later? a c ≡ true
later?-trans a b c h k = ground arith

-- Every node of `t` is at a state that may follow its state in `s`.
abbrev pub Follows : Scheduler → Scheduler → Type 0
Follows s t = (n : String) → later? (get n s.states) (get n t.states) ≡ true

later?-refl : (a : Option NodeState) → later? a a ≡ true
later?-refl a = ground arith

pub Follows-refl : (s : Scheduler) → Follows s s
Follows-refl s n = later?-refl (get n s.states)

Follows-trans : (s t u : Scheduler) → Follows s t → Follows t u → Follows s u
Follows-trans s t u f g n =
    later?-trans (get n s.states) (get n t.states) (get n u.states) (f n) (g n)

-- Writing a state that may follow the one that is there.
put-Follows :
    (s t : Scheduler) (id : String) (st : NodeState)
    → later? (get id s.states) (some st) ≡ true
    → t.states ≡ Map.insert id st s.states
    → Follows s t
put-Follows s t id st h e n =
    ground (arith, Map.get-insert id n st s.states, eqb_iff n id, later?-refl (get n s.states))

start_node-Follows :
    (s : Scheduler) (id : String) → Starts s id → IsSynced s → Follows s (start_node s id)
unfolding start_node acquire_resources
start_node-Follows s id h v =
    put-Follows s (start_node s id) id running (ground (arith, h.was_ready, v.ready_eq id)) refl

unlock_child-Follows : (s : Scheduler) (c : String) → Follows s (unlock_child s c)
unfolding unlock_child release_dependency is_pending
unlock_child-Follows s c n =
    ground (arith, Map.get-insert c n ready s.states, eqb_iff n c, later?-refl (get n s.states))

unlock_children-Follows : (s : Scheduler) (cs : List String) → Follows s (unlock_children s cs)
unfolding unlock_children
unlock_children-Follows s [] = Follows-refl s
unlock_children-Follows s (c ∷ cs) =
    Follows-trans s (unlock_child s c) (unlock_children (unlock_child s c) cs)
      (unlock_child-Follows s c) (unlock_children-Follows (unlock_child s c) cs)

abbrev Cancellable : Scheduler → List String → Type 0
Cancellable s ids =
    (n : String) → contains n ids ≡ true → later? (get n s.states) (some cancelled) ≡ true

cancel_each-Follows :
    (s : Scheduler) (ids : List String) → Cancellable s ids → Follows s (cancel_each s ids)
unfolding cancel_each cancel_node
cancel_each-Follows s [] h = Follows-refl s
cancel_each-Follows s (id ∷ ids) h =
    let t = cancel_node s id in
    Follows-trans s t (cancel_each t ids)
      (put-Follows s t id cancelled (h id (ground (arith, eqb_self id))) refl)
      (cancel_each-Follows t ids
        (λ n c. ground (arith, h n, Map.get-insert id n cancelled s.states)))

waits-cancellable : (o : Option NodeState) → waits o ≡ true → later? o (some cancelled) ≡ true
unfolding is_waiting
waits-cancellable o h = ground arith

cancel_all-Follows : (s : Scheduler) → IsSynced s → Follows s (cancel_all_not_started s)
unfolding cancel_all_not_started
cancel_all-Follows s v =
    cancel_each-Follows s (waiting_ids s.states)
      (λ n c. waits-cancellable _ (sym (waiting_ids_lem n s.states v.sorted) ∙ c))

visit-Follows : (s : Scheduler) (id : String) (stack : List String) → Follows s (visit s id stack).0
unfolding visit skip_node is_waiting
visit-Follows s id stack n =
    ground (arith, Map.get-insert id n skipped s.states, eqb_iff n id, later?-refl (get n s.states))

skip_loop-Follows :
    (fuel : ℕ) (s : Scheduler) (stack seen : List String) → Follows s (skip_loop fuel s stack seen)
unfolding skip_loop
skip_loop-Follows zero s stack seen = Follows-refl s
skip_loop-Follows (suc fuel) s [] seen = Follows-refl s
skip_loop-Follows (suc fuel) s (id ∷ stack) seen = elim (Bool-cases (contains id seen)) [
  | inl e ↦ rw (e, skip_loop) (skip_loop-Follows fuel s stack seen)
  | inr e ↦
      let (t, stack') = visit s id stack in
      rw (e, skip_loop)
        (Follows-trans s t (skip_loop fuel t stack' (Set.insert id seen)) (visit-Follows s id stack)
          (skip_loop-Follows fuel t stack' (Set.insert id seen)))
]

settle_failure-Follows :
    (s : Scheduler) (node : String) → IsSynced s → Follows s (settle_failure s node)
unfolding settle_failure cancel_transitive_dependents
settle_failure-Follows s node v =
    elim s.failure_policy
      as (λ p. Follows s (elim p [
        | fail_fast ↦ cancel_all_not_started (record s { fail_fast_tripped = true })
        | keep_going ↦ cancel_transitive_dependents s node
      ])) [
        | fail_fast ↦
            cancel_all-Follows (record s { fail_fast_tripped = true })
              (record { sorted = v.sorted; ready_eq = v.ready_eq; running_eq = v.running_eq })
        | keep_going ↦ skip_loop-Follows _ s _ []
      ]

finish-Follows :
    (s : Scheduler) (node : String) (code : ℤ)
    → contains node s.running_set ≡ true
    → IsSynced s
    → Follows s (finish s node code)
unfolding finish unlock_dependents release_resources
finish-Follows s node code runs v =
    let done = ended s node succeeded in
    let broken = ended s node failed in
    let ran : is_running (get node s.states) ≡ true = sym (v.running_eq node) ∙ runs in
    elim (Bool-cases (is_zero code)) [
      | inl e ↦
          rw (e, if◌then◌else◌)
            (Follows-trans s done (unlock_dependents done node)
              (put-Follows s done node succeeded (ground arith) refl)
              (unlock_children-Follows done _))
      | inr e ↦
          rw (e, if◌then◌else◌)
            (Follows-trans s broken (settle_failure broken node)
              (put-Follows s broken node failed (ground arith) refl)
              (settle_failure-Follows broken node (ended-IsSynced s node failed refl refl runs v)))
    ]

-- In sync, and later than a fixed state.
record IsAfter (s t : Scheduler) : Type 0 where
  synced : IsSynced t
  follows : Follows s t

IsAfter-Keeps : (s : Scheduler) → Keeps (IsAfter s)
IsAfter-Keeps s = record {
  starts = λ t id h v. record {
    synced = IsSynced-Keeps.starts t id h v.synced;
    follows = Follows-trans s t (start_node t id) v.follows (start_node-Follows t id h v.synced);
  };
  cancels = λ t v. record {
    synced = IsSynced-Keeps.cancels t v.synced;
    follows =
        Follows-trans s t (cancel_all_not_started t) v.follows (cancel_all-Follows t v.synced);
  };
  finishes = λ t node code runs v. record {
    synced = IsSynced-Keeps.finishes t node code runs v.synced;
    follows =
        Follows-trans s t (finish t node code) v.follows (finish-Follows t node code runs v.synced);
  };
}

pub Reach-Follows : (s t : Scheduler) → IsSynced s → Reach s t → Follows s t
Reach-Follows s t v r =
    (Reach-Keeps (IsAfter-Keeps s) {s = s} {t = t} (record { synced = v; follows = Follows-refl s })
      r).follows
