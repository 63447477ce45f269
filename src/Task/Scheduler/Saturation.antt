-- ===== src/Task/Scheduler/Saturation.antt =====
-- crates/nxr-task/src/scheduler.rs: `why `schedule_ready` stops.
use mathlib.Core.Path.{subst}
use nxr.Base.{
  ℕ, zero, suc, ◌≤◌, ◌<◌, ◌≡◌, refl, sym, ◌∙◌, if-true, if-false, Bool, true, false, ◌&&◌, List, [],
  ◌∷◌, ◌++◌, none, some, String, arith, any, find, length, ◌⊎◌, Bool-cases, inl, inr,
}
use nxr.Base.Order.{string_ord}
use nxr.Base.Set
use nxr.Base.Set.{contains}
use nxr.Task.Scheduler.State.{
  Scheduler, is_empty, is_interactive, has_interactive_in_flight, can_acquire_resources,
  acquire_resources,
}
use nxr.Task.Scheduler.Start.{stop, pick, start_node, start_loop, schedule_ready}
use nxr.Task.Scheduler.Loop.{Next-cases, pick-more, pick-last}

-- Why no further node is started in `s`, when `started` nodes have been.
abbrev pub Saturated : Scheduler × List String → Type 0
Saturated (s, started) =
    (has_interactive_in_flight s ≡ true)
    ⊎ (s.jobs ≤ length s.running_set)
    ⊎ (find (can_acquire_resources s) s.ready_set ≡ none)
    ⊎ ((id : String) × (find (can_acquire_resources s) s.ready_set ≡ some id)
        × (is_interactive s id ≡ true)
        × ((is_empty s.running_set && is_empty started) ≡ false))

pick-stop : (s : Scheduler) (started : List String) → pick s started ≡ stop → Saturated (s, started)
unfolding pick
pick-stop s started e = ground arith

any-insert_self :
    (p : String → Bool) (k : String) (xs : List String)
    → p k ≡ true
    → any p (Set.insert k xs) ≡ true
unfolding Set.insert
any-insert_self p k [] h = rw h
any-insert_self p k (x ∷ xs) h = ground (arith, any-insert_self p k xs)

start_node_interactive :
    (s : Scheduler) (id : String)
    → is_interactive s id ≡ true
    → has_interactive_in_flight (start_node s id) ≡ true
unfolding has_interactive_in_flight start_node acquire_resources is_interactive
start_node_interactive s id h = any-insert_self (is_interactive s) id s.running_set h

start_node-ready :
    (s : Scheduler) (id : String) → (start_node s id).ready_set ≡ Set.remove id s.ready_set
unfolding start_node acquire_resources
start_node-ready s id = refl

-- The rounds given are enough.
start_loop-Saturated :
    (fuel : ℕ) (s : Scheduler) (started : List String)
    → length s.ready_set < fuel
    → Saturated (start_loop fuel s started)
unfolding start_loop
start_loop-Saturated zero s started h = absurd (omega arith)
start_loop-Saturated (suc fuel) s started h = elim (Next-cases (pick s started)) [
  | inl e ↦ rw (e, start_loop) (pick-stop s started e)
  | inr (inl (id, e)) ↦
      rw (e, start_loop) (inl (start_node_interactive s id (pick-last s started id e).1))
  | inr (inr (id, e)) ↦
      let ready = (pick-more s started id e).0.was_ready in
      rw (e, start_loop)
        (start_loop-Saturated fuel (start_node s id) (started ++ id ∷ [])
          (rw start_node-ready (omega (arith, Set.length-remove-lt id s.ready_set ready))))
]

-- Where the run was not cancelled by a failure, `schedule_ready` ends by one of its own tests, the rounds
-- given being enough: an interactive node runs, or `jobs` nodes run, or no ready node fits the resource
-- pool, or the first ready node that fits is interactive and others run or were just started.
pub schedule_ready-Saturated :
    (s : Scheduler) → s.fail_fast_tripped ≡ false → Saturated (schedule_ready s)
unfolding schedule_ready
schedule_ready-Saturated s h = elim (Bool-cases (has_interactive_in_flight s)) [
  | inl e ↦
      subst Saturated
        (sym (if-false s.fail_fast_tripped _ _ h ∙ if-true (has_interactive_in_flight s) _ _ e))
        (inl e)
  | inr e ↦
      subst Saturated
        (sym (if-false s.fail_fast_tripped _ _ h ∙ if-false (has_interactive_in_flight s) _ _ e))
        (start_loop-Saturated (suc (length s.ready_set)) s [] (omega arith))
]
