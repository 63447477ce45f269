-- ===== src/Task/Scheduler/Order.antt =====
-- crates/nxr-task/src/scheduler.rs: no node is released before its dependencies have succeeded, on a
-- start, a cancellation and a skip.
use nxr.Base.{
  ℕ, zero, suc, ◌+◌, ◌≤◌, ◌≡◌, refl, sym, ◌∙◌, Bool, true, false, List, [], ◌∷◌, Option, some,
  String, arith, if◌then◌else◌, Bool-cases, Option-cases, inl, inr,
}
use nxr.Base.Order.{string_ord, eqb_iff, eqb_self}
use nxr.Base.Set
use nxr.Base.Set.{contains}
use nxr.Base.Map
use nxr.Base.Map.{get}
use nxr.Task.Rows.{Dependents, children, one_if}
use nxr.Task.Scheduler.State.{
  Scheduler, NodeState, pending, ready, running, cancelled, skipped, acquire_resources,
}
use nxr.Task.Scheduler.Start.{start_node}
use nxr.Task.Scheduler.Exit.{
  is_waiting, waiting_ids, cancel_node, cancel_each, cancel_all_not_started, skip_node, visit,
  skip_loop,
}
use nxr.Task.Scheduler.Loop.{Starts}
use nxr.Task.Scheduler.States.{IsSynced, waits, waiting_ids_lem}
use nxr.Task.Scheduler.Unmet.{States, has_succeeded, was_released, is_held, unmet, unmet-put}

-- A released node has only succeeded dependencies, and the count of a held node is at least the
-- number of those it waits for, `todo` being nodes whose counts are still one too high.
pub record IsOrdered (st : States) (rem : List (String × ℕ)) (dep : Dependents) (todo : List String)
    : Type 0 where
  pub met :
      (n d : String)
      → was_released (get n st) ≡ true
      → contains n (children dep d) ≡ true
      → has_succeeded (get d st) ≡ true
  pub counted :
      (n : String) (k : ℕ)
      → is_held (get n st) ≡ true
      → get n rem ≡ some k
      → unmet n st dep + one_if (contains n todo) ≤ k

abbrev pub Ordered : Scheduler → List String → Type 0
Ordered s todo = IsOrdered s.states s.remaining_deps s.dependents todo

pub put-IsOrdered :
    (id : String) (new : NodeState) (st : States) (rem : List (String × ℕ)) (dep : Dependents)
    → has_succeeded (get id st) ≡ false
    → has_succeeded (some new) ≡ false
    → is_held (some new) ≡ false
    → (was_released (some new) ≡ true → was_released (get id st) ≡ true)
    → IsOrdered st rem dep []
    → IsOrdered (Map.insert id new st) rem dep []
put-IsOrdered id new st rem dep hs hn hh hr v = record {
  met = λ n d r c. ground (
    arith,
    v.met n d,
    Map.get-insert id n new st,
    Map.get-insert id d new st,
    eqb_iff n id,
    eqb_iff d id,
  );
  counted = λ n k h e. ground (
    arith,
    v.counted n k,
    Map.get-insert id n new st,
    eqb_iff n id,
    unmet-put n id new st dep hs hn,
  );
}

pub start_node-Ordered :
    (s : Scheduler) (id : String)
    → Starts s id
    → IsSynced s
    → Ordered s []
    → Ordered (start_node s id) []
unfolding start_node acquire_resources
start_node-Ordered s id h v =
    put-IsOrdered id running s.states s.remaining_deps s.dependents
      (ground (arith, h.was_ready, v.ready_eq id)) refl refl
      (λ r. ground (arith, h.was_ready, v.ready_eq id))

-- A node that waits, or was cancelled, has not succeeded.
abbrev open_state : Option NodeState → Bool
open_state (some pending) = true
open_state (some ready) = true
open_state (some cancelled) = true
open_state _ = false

cancel_each-Ordered :
    (s : Scheduler) (ids : List String)
    → ((n : String) → contains n ids ≡ true → open_state (get n s.states) ≡ true)
    → Ordered s []
    → Ordered (cancel_each s ids) []
unfolding cancel_each cancel_node
cancel_each-Ordered s [] h v = v
cancel_each-Ordered s (id ∷ ids) h v =
    cancel_each-Ordered (cancel_node s id) ids
      (λ n c. ground (arith, h n, Map.get-insert id n cancelled s.states))
      (put-IsOrdered id cancelled s.states s.remaining_deps s.dependents
        (ground (arith, h id (ground (arith, eqb_self id)))) refl refl (λ r. cc) v)

waits-open : (o : Option NodeState) → waits o ≡ true → open_state o ≡ true
unfolding is_waiting
waits-open o h = ground arith

pub cancel_all-Ordered :
    (s : Scheduler) → IsSynced s → Ordered s [] → Ordered (cancel_all_not_started s) []
unfolding cancel_all_not_started
cancel_all-Ordered s v =
    cancel_each-Ordered s (waiting_ids s.states)
      (λ n c. waits-open _ (sym (waiting_ids_lem n s.states v.sorted) ∙ c))

open-not-succeeded : (st : NodeState) → is_waiting st ≡ true → has_succeeded (some st) ≡ false
unfolding is_waiting
open-not-succeeded st h = ground arith

visit-Ordered :
    (s : Scheduler) (id : String) (stack : List String)
    → Ordered s []
    → Ordered (visit s id stack).0 []
unfolding visit skip_node
visit-Ordered s id stack v = elim (Option-cases (get id s.states)) [
  | inl e ↦ rw (e, visit) v
  | inr (st, e) ↦
      rw (e, visit)
        (elim (Bool-cases (is_waiting st)) [
          | inl w ↦
              rw (w, if◌then◌else◌)
                (put-IsOrdered id skipped s.states s.remaining_deps s.dependents
                  (rw (e, has_succeeded) (open-not-succeeded st w)) refl refl (λ r. cc) v)
          | inr w ↦ rw (w, if◌then◌else◌) v
        ])
]

pub skip_loop-Ordered :
    (fuel : ℕ) (s : Scheduler) (stack seen : List String)
    → Ordered s []
    → Ordered (skip_loop fuel s stack seen) []
unfolding skip_loop
skip_loop-Ordered zero s stack seen v = v
skip_loop-Ordered (suc fuel) s [] seen v = v
skip_loop-Ordered (suc fuel) s (id ∷ stack) seen v = elim (Bool-cases (contains id seen)) [
  | inl e ↦ rw (e, skip_loop) (skip_loop-Ordered fuel s stack seen v)
  | inr e ↦
      rw (e, skip_loop)
        (skip_loop-Ordered fuel (visit s id stack).0 (visit s id stack).1 (Set.insert id seen)
          (visit-Ordered s id stack v))
]

pub weaken-Ordered :
    (s : Scheduler) (c : String) (cs : List String) → Ordered s (c ∷ cs) → Ordered s cs
weaken-Ordered s c cs v = record {
  met = v.met;
  counted = λ n k h e. ground (arith, v.counted n k h e);
}
