-- ===== src/Task/Scheduler/Exit.antt =====
-- crates/nxr-task/src/scheduler.rs: what the exit of a node does to the others.
use mathlib.Core.List.{reverse}
use nxr.Base.{
  ℕ, zero, suc, ◌+◌, ◌-◌, Bool, true, false, List, [], ◌∷◌, ◌++◌, none, some, String, length,
  if◌then◌else◌, ◌==◌,
}
use nxr.Base.Order.{string_ord}
use nxr.Base.Words.{ℤ, is_zero}
use nxr.Base.Map
use nxr.Base.Set
use nxr.Task.Rows.{children}
use nxr.Base.{get_or}
use nxr.Task.Plan.{fail_fast, keep_going}
use nxr.Task.Scheduler.State.{
  Scheduler, not_running, unknown_node, Result, ok, err, NodeState, pending, ready, succeeded,
  failed, cancelled, skipped, release_resources,
}

unfoldable pub is_pending : NodeState → Bool
is_pending pending = true
is_pending _ = false

-- Pending or ready.
unfoldable pub is_waiting : NodeState → Bool
is_waiting pending = true
is_waiting ready = true
is_waiting _ = false

-- One dependency of `child` fewer. A child with no count would panic: every node has one.
unfoldable pub release_dependency : Scheduler → String → Scheduler
release_dependency s child = elim (Map.get child s.remaining_deps) [
  | none ↦ s
  | some deg ↦
      let s' = record s { remaining_deps = Map.insert child (deg - 1) s.remaining_deps } in
      if deg - 1 == 0
      then record s' {
        ready_set = Set.insert child s.ready_set;
        states = Map.insert child ready s.states;
      }
      else s'
]

unfoldable pub unlock_child : Scheduler → String → Scheduler
unlock_child s child = elim (Map.get child s.states) [
  | none ↦ s
  | some st ↦ if is_pending st then release_dependency s child else s
]

unfoldable pub unlock_children : Scheduler → List String → Scheduler
unlock_children s [] = s
unlock_children s (child ∷ children) = unlock_children (unlock_child s child) children

unfoldable pub unlock_dependents : Scheduler → String → Scheduler
unlock_dependents s node = unlock_children s (get_or (Map.get node s.dependents) [])

unfoldable pub waiting_ids : List (String × NodeState) → List String
waiting_ids [] = []
waiting_ids ((id, st) ∷ rest) =
    let others = waiting_ids rest in if is_waiting st then id ∷ others else others

unfoldable pub cancel_node : Scheduler → String → Scheduler
cancel_node s id = record s {
  ready_set = Set.remove id s.ready_set;
  states = Map.insert id cancelled s.states;
}

unfoldable pub cancel_each : Scheduler → List String → Scheduler
cancel_each s [] = s
cancel_each s (id ∷ ids) = cancel_each (cancel_node s id) ids

unfoldable pub cancel_all_not_started : Scheduler → Scheduler
cancel_all_not_started s = cancel_each s (waiting_ids s.states)

unfoldable pub skip_node : Scheduler → String → Scheduler
skip_node s id = record s {
  ready_set = Set.remove id s.ready_set;
  states = Map.insert id skipped s.states;
}

-- The stack with its top first: `extend` pushes the children in ascending order.
unfoldable pub push_children : Scheduler → String → List String → List String
push_children s id stack = reverse (get_or (Map.get id s.dependents) []) ++ stack

-- One round of the loop for a node that is seen for the first time.
unfoldable pub visit : Scheduler → String → List String → Scheduler × List String
visit s id stack = elim (Map.get id s.states) [
  | none ↦ (s, stack)
  | some st ↦ if is_waiting st then (skip_node s id, push_children s id stack) else (s, stack)
]

unfoldable pub skip_loop : ℕ → Scheduler → List String → List String → Scheduler
skip_loop zero s stack seen = s
skip_loop (suc fuel) s [] seen = s
skip_loop (suc fuel) s (id ∷ stack) seen = elim (Set.contains id seen) [
  | true ↦ skip_loop fuel s stack seen
  | false ↦ let next = visit s id stack in skip_loop fuel next.0 next.1 (Set.insert id seen)
]

unfoldable pub count_children : List (String × List String) → ℕ
count_children [] = 0
count_children ((id, children) ∷ rest) = length children + count_children rest

-- Every node is expanded at most once, so the pushes are at most two times the edges.
unfoldable pub cancel_transitive_dependents : Scheduler → String → Scheduler
cancel_transitive_dependents s node =
    let edges = count_children s.dependents in
    skip_loop (suc (edges + edges)) s (push_children s node []) []

unfoldable pub settle_failure : Scheduler → String → Scheduler
settle_failure s node = elim s.failure_policy [
  | fail_fast ↦ cancel_all_not_started (record s { fail_fast_tripped = true })
  | keep_going ↦ cancel_transitive_dependents s node
]

-- The part of `on_exit` behind its two guards.
unfoldable pub finish : Scheduler → String → ℤ → Scheduler
finish s node code =
    let s' = release_resources (record s { running_set = Set.remove node s.running_set }) node in
    if is_zero code
    then unlock_dependents (record s' { states = Map.insert node succeeded s'.states }) node
    else settle_failure (record s' { states = Map.insert node failed s'.states }) node

unfoldable pub on_exit : Scheduler → String → ℤ → Result Scheduler
on_exit s node code = elim (Map.get node s.states) [
  | none ↦ err (unknown_node node)
  | some _ ↦
      if Set.contains node s.running_set then ok (finish s node code) else err (not_running node)
]
