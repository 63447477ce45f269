-- ===== src/Task/Scheduler/Interactive.antt =====
-- crates/nxr-task/src/scheduler.rs: an interactive node has the terminal to itself.
use mathlib.Core.Path.{subst}
use nxr.Base.{
  ℕ, zero, suc, ◌≡◌, Bool, true, false, List, [], ◌∷◌, ◌++◌, String, arith, any, length,
  if◌then◌else◌, Bool-cases, inl, inr,
}
use nxr.Base.Order.{string_ord, eqb_iff}
use nxr.Base.Set
use nxr.Base.Set.{contains}
use nxr.Task.Scheduler.State.{
  Scheduler, is_interactive, has_interactive_in_flight, acquire_resources, release_resources,
}
use nxr.Task.Scheduler.Start.{pick, start_node, start_loop, schedule_ready}
use nxr.Task.Scheduler.Exit.{cancel_all_not_started, finish}
use nxr.Task.Scheduler.Frame.{Frame, stopped, finish-Frame, cancel_all-Frame}
use nxr.Task.Scheduler.Loop.{
  Step, scheduled, exited, Reach, here, next, pick-more, pick-last, Next-cases, on_exit-eq-ok,
}

-- A running interactive node is the only running node.
abbrev pub Alone : Scheduler → Type 0
Alone s =
    (n m : String)
    → contains n s.running_set ≡ true
    → is_interactive s n ≡ true
    → contains m s.running_set ≡ true
    → m ≡ n

any-insert :
    (p : String → Bool) (k : String) (xs : List String)
    → any p xs ≡ false
    → p k ≡ false
    → any p (Set.insert k xs) ≡ false
unfolding Set.insert
any-insert p k [] h e = rw e
any-insert p k (x ∷ xs) h e = ground (arith, any-insert p k xs)

any-contains :
    (p : String → Bool) (n : String) (xs : List String)
    → any p xs ≡ false
    → contains n xs ≡ true
    → p n ≡ false
any-contains p n [] h c = cc
any-contains p n (x ∷ xs) h c = ground (arith, eqb_iff n x, any-contains p n xs)

quiet-Alone : (s : Scheduler) → has_interactive_in_flight s ≡ false → Alone s
unfolding has_interactive_in_flight
quiet-Alone s h n m c i d = ground (arith, any-contains (is_interactive s) n s.running_set h c)

start_node_quiet :
    (s : Scheduler) (id : String)
    → is_interactive s id ≡ false
    → has_interactive_in_flight s ≡ false
    → has_interactive_in_flight (start_node s id) ≡ false
unfolding has_interactive_in_flight start_node acquire_resources is_interactive
start_node_quiet s id e h = any-insert (is_interactive s) id s.running_set h e

start_node-Alone : (s : Scheduler) (id : String) → s.running_set ≡ [] → Alone (start_node s id)
unfolding start_node acquire_resources
start_node-Alone s id e n m c i d = ground (
  arith,
  e,
  Set.contains-insert id n s.running_set,
  Set.contains-insert id m s.running_set,
  eqb_iff n id,
  eqb_iff m id,
)

start_loop-Alone :
    (fuel : ℕ) (s : Scheduler) (started : List String)
    → has_interactive_in_flight s ≡ false
    → Alone (start_loop fuel s started).0
unfolding start_loop
start_loop-Alone zero s started h = quiet-Alone s h
start_loop-Alone (suc fuel) s started h = elim (Next-cases (pick s started)) [
  | inl e ↦ rw (e, start_loop) (quiet-Alone s h)
  | inr (inl (id, e)) ↦
      let (starts, inter) = pick-last s started id e in
      rw (e, start_loop) (start_node-Alone s id (starts.alone inter))
  | inr (inr (id, e)) ↦
      let (starts, plain) = pick-more s started id e in
      rw (e, start_loop)
        (start_loop-Alone fuel (start_node s id) (started ++ id ∷ [])
          (start_node_quiet s id plain h))
]

Frame-Alone : (s t : Scheduler) → Frame s t → Alone s → Alone t
unfolding is_interactive
Frame-Alone s t f a n m c i d = ground (arith, f.running, f.fixed.interactive, a n m)

schedule_ready-Alone : (s : Scheduler) → Alone s → Alone (schedule_ready s).0
unfolding schedule_ready
schedule_ready-Alone s a =
    let begun = start_loop (suc (length s.ready_set)) s [] in
    elim s.fail_fast_tripped
      as (λ b.
        Alone
          (if b
            then (cancel_all_not_started s, [])
            else if has_interactive_in_flight s
            then (s, [])
            else begun).0) [
              | true ↦ Frame-Alone s (cancel_all_not_started s) (cancel_all-Frame s) a
              | false ↦ elim (Bool-cases (has_interactive_in_flight s)) [
                | inl e ↦ rw (e, if◌then◌else◌) a
                | inr e ↦ rw (e, if◌then◌else◌) (start_loop-Alone (suc (length s.ready_set)) s [] e)
              ]
            ]

stopped-Alone : (s : Scheduler) (node : String) → Alone s → Alone (stopped s node)
unfolding release_resources is_interactive
stopped-Alone s node a n m c i d = ground (
  arith,
  a n m,
  Set.contains-remove node n s.running_set,
  Set.contains-remove node m s.running_set,
)

pub Step-Alone : {s t : Scheduler} → Step s t → Alone s → Alone t
Step-Alone {s} (scheduled e) a = subst Alone e (schedule_ready-Alone s a)
Step-Alone {s} {t} (exited node code e) a = subst Alone (on_exit-eq-ok s node code t e).1 (
    Frame-Alone (stopped s node) (finish s node code) (finish-Frame s node code)
      (stopped-Alone s node a))

pub Reach-Alone : {s t : Scheduler} → Alone s → Reach s t → Alone t
Reach-Alone a here = a
Reach-Alone a (next r st) = Step-Alone st (Reach-Alone a r)
