-- ===== src/Task/Scheduler/Loop.antt =====
-- crates/nxr-task/src/scheduler.rs: what holds of a node that `schedule_ready` starts, and the proof
-- rule of its loop.
use mathlib.Core.Path.{subst}
use nxr.Base.{
  ℕ, zero, suc, ◌<◌, ◌≡◌, refl, Bool, true, false, List, [], ◌∷◌, ◌++◌, some, String, arith, length,
  find, find_holds, ◌⊎◌, inl, inr, if◌then◌else◌,
}
use nxr.Base.Set
use nxr.Base.Order.{string_ord, eqb_self}
use nxr.Base.Words.{ℤ}
use nxr.Task.Scheduler.State.{
  Scheduler, ok, is_interactive, has_interactive_in_flight, can_acquire_resources,
}
use nxr.Task.Scheduler.Start.{Next, stop, last, more, pick, start_node, start_loop, schedule_ready}
use nxr.Task.Scheduler.Exit.{cancel_all_not_started, finish, on_exit}

pub record Starts (s : Scheduler) (id : String) : Type 0 where
  pub room : length s.running_set < s.jobs
  pub was_ready : Set.contains id s.ready_set ≡ true
  pub fits : can_acquire_resources s id ≡ true
  pub alone : is_interactive s id ≡ true → s.running_set ≡ []

pub find_member :
    (p : String → Bool) (xs : List String) {x : String}
    → find p xs ≡ some x
    → Set.contains x xs ≡ true
find_member p [] {x} e = ground arith
find_member p (y ∷ ys) {x} e = ground (arith, find_member p ys {x = x}, eqb_self x)

pub pick-more :
    (s : Scheduler) (started : List String) (id : String)
    → pick s started ≡ more id
    → Starts s id × (is_interactive s id ≡ false)
unfolding pick
pick-more s started id e = ground (
  arith,
  find_member (can_acquire_resources s) s.ready_set {x = id},
  find_holds (can_acquire_resources s) s.ready_set {x = id},
)

pub pick-last :
    (s : Scheduler) (started : List String) (id : String)
    → pick s started ≡ last id
    → Starts s id × (is_interactive s id ≡ true)
unfolding pick
pick-last s started id e = ground (
  arith,
  find_member (can_acquire_resources s) s.ready_set {x = id},
  find_holds (can_acquire_resources s) s.ready_set {x = id},
)

pub Next-cases :
    (n : Next) → (n ≡ stop) ⊎ ((id : String) × (n ≡ last id)) ⊎ ((id : String) × (n ≡ more id))
Next-cases stop = inl refl
Next-cases (last id) = inr (inl (id, refl))
Next-cases (more id) = inr (inr (id, refl))

-- What every start keeps, the loop keeps.
pub start_loop_ind {ℓ} :
    (P : Scheduler → Type ℓ)
    → ((s : Scheduler) (id : String) → Starts s id → P s → P (start_node s id))
    → (fuel : ℕ) (s : Scheduler) (started : List String) → P s
    → P (start_loop fuel s started).0
unfolding start_loop
start_loop_ind P keep zero s started h = h
start_loop_ind P keep (suc fuel) s started h = elim (Next-cases (pick s started)) [
  | inl e ↦ rw (e, start_loop) h
  | inr (inl (id, e)) ↦ rw (e, start_loop) (keep s id (pick-last s started id e).0 h)
  | inr (inr (id, e)) ↦
      rw (e, start_loop)
        (start_loop_ind P keep fuel (start_node s id) (started ++ id ∷ [])
          (keep s id (pick-more s started id e).0 h))
]

-- A call of the scheduler: `schedule_ready`, or `on_exit` for a node that runs.
pub data Step (s : Scheduler) : Scheduler → Type 0 where
  scheduled : {t : Scheduler} → (schedule_ready s).0 ≡ t → Step s t
  exited : {t : Scheduler} (node : String) (code : ℤ) → on_exit s node code ≡ ok t → Step s t

-- Any sequence of calls.
pub data Reach (start : Scheduler) : Scheduler → Type 0 where
  here : Reach start start
  next : {s t : Scheduler} → Reach start s → Step s t → Reach start t

-- What `on_exit` guards: the node runs.
pub on_exit-eq-ok :
    (s : Scheduler) (node : String) (code : ℤ) (t : Scheduler)
    → on_exit s node code ≡ ok t
    → (Set.contains node s.running_set ≡ true) × (finish s node code ≡ t)
unfolding on_exit
on_exit-eq-ok s node code t e = ground arith

-- An invariant that starting, cancelling and finishing keep holds along every run.
pub record Keeps {ℓ} (P : Scheduler → Type ℓ) : Type ℓ where
  pub starts : (s : Scheduler) (id : String) → Starts s id → P s → P (start_node s id)
  pub cancels : (s : Scheduler) → P s → P (cancel_all_not_started s)
  pub finishes :
      (s : Scheduler) (node : String) (code : ℤ)
      → Set.contains node s.running_set ≡ true
      → P s
      → P (finish s node code)

module _ {ℓ} {P : Scheduler → Type ℓ} (k : Keeps P) where
  pub schedule_ready-Keeps : (s : Scheduler) → P s → P (schedule_ready s).0
  unfolding schedule_ready
  schedule_ready-Keeps s h =
      let started = start_loop (suc (length s.ready_set)) s [] in
      let begun = start_loop_ind P k.starts (suc (length s.ready_set)) s [] h in
      elim s.fail_fast_tripped
        as (λ b.
          P
            (if b
              then (cancel_all_not_started s, [])
              else if has_interactive_in_flight s
              then (s, [])
              else started).0) [
                | true ↦ k.cancels s h
                | false ↦
                    elim (has_interactive_in_flight s)
                      as (λ b. P (if b then (s, []) else started).0) [ true ↦ h | false ↦ begun ]
              ]

  pub Step-Keeps : {s t : Scheduler} → Step s t → P s → P t
  Step-Keeps {s} (scheduled e) h = subst P e (schedule_ready-Keeps s h)
  Step-Keeps {s} {t} (exited node code e) h =
      let (runs, same) = on_exit-eq-ok s node code t e in
      subst P same (k.finishes s node code runs h)

  pub Reach-Keeps : {s t : Scheduler} → P s → Reach s t → P t
  Reach-Keeps h here = h
  Reach-Keeps h (next r st) = Step-Keeps st (Reach-Keeps h r)
