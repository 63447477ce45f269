-- ===== src/Worker/Lease.antt =====
-- crates/nxr-core/src/worker_schedule.rs: a reservation along a run of calls.
use nxr.Base.{
  ℕ, ◌≤◌, ◌<◌, ◌≡◌, ap, ◌∙◌, true, false, not, List, [], ◌∷◌, none, some, String, arith, any,
  find_holds, All, Bool-cases, Option-cases, inl, inr,
}
use nxr.Base.Order.{string_ord, eqb, eqb_iff, eqb_self}
use nxr.Base.Words.{u64_max, saturating_add}
use nxr.Base.Map
use nxr.Base.Map.{get}
use nxr.Base.Texts.{is_blank}
use nxr.Worker.Registry.{
  WorkerDescriptor, WorkerRequirements, WorkerReservation, Result, ok, LocalWorkerRegistry,
  unexpired, reservation_active, prune_expired, release_worker, register_worker, eligible,
  select_worker, has_id, reserve_worker, select_and_reserve,
}
use nxr.Worker.Reserve.{
  IsRegistry, if_either, register_worker-IsRegistry, prune_expired-IsRegistry,
  release_worker-IsRegistry, reserve_worker-IsRegistry,
}
use nxr.Worker.Select.{reservation_of, selected, select_and_reserve_lem}

-- The calls that change a registry, with the times that they are given.
pub data Call : Type 0 where
  register : (worker : WorkerDescriptor) → Call
  reserve : (id : String) → (now ttl_secs : ℕ) → Call
  select : (requirements : WorkerRequirements) → (now ttl_secs : ℕ) → Call
  release : (id : String) → Call

abbrev pub step : LocalWorkerRegistry → Call → LocalWorkerRegistry
step r (register worker) = (register_worker r worker).0
step r (reserve id now ttl) = (reserve_worker r id now ttl).0
step r (select req now ttl) = (select_and_reserve r req now ttl).0
step r (release id) = release_worker r id

abbrev pub run : LocalWorkerRegistry → List Call → LocalWorkerRegistry
run r [] = r
run r (call ∷ calls) = run (step r call) calls

-- The call is made before `until` and does not release `id`.
abbrev pub Keeps : String → ℕ → Call → Type 0
Keeps id until (register worker) = Unit
Keeps id until (reserve other now ttl) = now < until
Keeps id until (select req now ttl) = now < until
Keeps id until (release other) = eqb other id ≡ false

abbrev pub Held : LocalWorkerRegistry → String → ℕ → Type 0
Held r id until =
    (e : WorkerReservation) × (get id r.reservations ≡ some e) × (until ≤ e.expires_at)

pub select_and_reserve-IsRegistry :
    (r : LocalWorkerRegistry) (req : WorkerRequirements) (now ttl : ℕ)
    → IsRegistry r
    → IsRegistry (select_and_reserve r req now ttl).0
select_and_reserve-IsRegistry r req now ttl v =
    let v' = prune_expired-IsRegistry r now v in
    rw (select_and_reserve_lem r req now ttl v)
      (elim (select_worker r req now)
        as (λ w. IsRegistry (selected (prune_expired r now) now ttl w).0) [
          | none ↦ v'
          | some w ↦ record {
            sorted = Map.insert-IsSorted w.id (reservation_of now ttl) _ v'.sorted;
            distinct = v'.distinct;
          }
        ])

-- Along any calls the ids of the workers stay distinct and the reservations sorted.
pub run-IsRegistry :
    (r : LocalWorkerRegistry) (calls : List Call) → IsRegistry r → IsRegistry (run r calls)
run-IsRegistry r [] v = v
run-IsRegistry r (register w ∷ calls) v =
    run-IsRegistry (register_worker r w).0 calls (register_worker-IsRegistry r w v)
run-IsRegistry r (reserve id now ttl ∷ calls) v =
    run-IsRegistry (reserve_worker r id now ttl).0 calls (reserve_worker-IsRegistry r id now ttl v)
run-IsRegistry r (select req now ttl ∷ calls) v =
    run-IsRegistry (select_and_reserve r req now ttl).0 calls
      (select_and_reserve-IsRegistry r req now ttl v)
run-IsRegistry r (release id ∷ calls) v =
    run-IsRegistry (release_worker r id) calls (release_worker-IsRegistry r id v)

Held-active :
    (r : LocalWorkerRegistry) (id : String) (until now : ℕ)
    → now < until
    → Held r id until
    → reservation_active r id now ≡ true
unfolding reservation_active
Held-active r id until now l (e, h, u) = ground (arith, h, u, l)

prune_expired-Held :
    (r : LocalWorkerRegistry) (id : String) (until now : ℕ)
    → now < until
    → Held r id until
    → Held (prune_expired r now) id until
unfolding prune_expired
prune_expired-Held r id until now l (e, h, u) =
    (e, Map.get-retain (unexpired now) id e r.reservations h (ground (arith, u, l)), u)

insert-Held :
    (r : LocalWorkerRegistry) (id other : String) (until : ℕ) (e : WorkerReservation)
    → eqb other id ≡ false
    → Held r id until
    → Held (record r { reservations = Map.insert other e r.reservations }) id until
insert-Held r id other until e n (f, h, u) = (
  f,
  ground (arith, h, n, eqb_iff id other, eqb_self other, Map.get-insert other id e r.reservations),
  u,
)

register_worker-Held :
    (r : LocalWorkerRegistry) (w : WorkerDescriptor) (id : String) (until : ℕ)
    → Held r id until
    → Held (register_worker r w).0 id until
unfolding register_worker
register_worker-Held r w id until h =
    if_either (λ (p : LocalWorkerRegistry × Result (Unit {0})). Held p.0 id until) (is_blank w.id) _
      _ h h

release_worker-Held :
    (r : LocalWorkerRegistry) (id other : String) (until : ℕ)
    → eqb other id ≡ false
    → Held r id until
    → Held (release_worker r other) id until
unfolding release_worker
release_worker-Held r id other until n (f, h, u) =
    (f, ground (arith, h, n, Map.get-remove other id r.reservations), u)

reserve_worker-Held :
    (r : LocalWorkerRegistry) (id other : String) (until now ttl : ℕ)
    → now < until
    → Held r id until
    → Held (reserve_worker r other now ttl).0 id until
unfolding reserve_worker
reserve_worker-Held r id other until now ttl l h =
    let h' = prune_expired-Held r id until now l h in
    let pruned = prune_expired r now in
    elim (Bool-cases (eqb other id)) [
      | inl same ↦
          let active : reservation_active pruned other now ≡ true =
            ground (arith, same, eqb_iff other id, Held-active pruned id until now l h') in
          rw active (
            if_either (λ (p : LocalWorkerRegistry × Result (Unit {0})). Held p.0 id until)
              (not (any (has_id other) pruned.workers)) _ _ h' h')
      | inr apart ↦
          if_either (λ (p : LocalWorkerRegistry × Result (Unit {0})). Held p.0 id until)
            (not (any (has_id other) pruned.workers)) _ _ h'
            (if_either (λ (p : LocalWorkerRegistry × Result (Unit {0})). Held p.0 id until)
              (reservation_active pruned other now) _ _ h'
              (insert-Held pruned id other until _ apart h'))
    ]

-- A worker with a reservation is not selected.
select_worker-Held :
    (r : LocalWorkerRegistry) (req : WorkerRequirements) (id : String) (until now : ℕ)
    (w : WorkerDescriptor)
    → now < until
    → Held r id until
    → select_worker r req now ≡ some w
    → eqb w.id id ≡ false
unfolding select_worker
select_worker-Held r req id until now w l h s = ground (
  arith,
  find_holds (eligible r req now) r.workers s,
  Held-active r id until now l h,
  eqb_iff w.id id,
)

select_and_reserve-Held :
    (r : LocalWorkerRegistry) (req : WorkerRequirements) (id : String) (until now ttl : ℕ)
    → IsRegistry r
    → now < until
    → Held r id until
    → Held (select_and_reserve r req now ttl).0 id until
select_and_reserve-Held r req id until now ttl v l h =
    let h' = prune_expired-Held r id until now l h in
    rw (select_and_reserve_lem r req now ttl v) (elim (Option-cases (select_worker r req now)) [
      | inl e ↦ rw e h'
      | inr (w, e) ↦ rw e (
          insert-Held (prune_expired r now) id w.id until (reservation_of now ttl)
            (select_worker-Held r req id until now w l h e) h')
    ])

pub run-Held :
    (r : LocalWorkerRegistry) (calls : List Call) (id : String) (until : ℕ)
    → IsRegistry r
    → All (Keeps id until) calls
    → Held r id until
    → Held (run r calls) id until
run-Held r [] id until v k h = h
run-Held r (register w ∷ calls) id until v k h =
    run-Held (register_worker r w).0 calls id until (register_worker-IsRegistry r w v) k.1
      (register_worker-Held r w id until h)
run-Held r (reserve other now ttl ∷ calls) id until v k h =
    run-Held (reserve_worker r other now ttl).0 calls id until
      (reserve_worker-IsRegistry r other now ttl v) k.1
      (reserve_worker-Held r id other until now ttl k.0 h)
run-Held r (select req now ttl ∷ calls) id until v k h =
    run-Held (select_and_reserve r req now ttl).0 calls id until
      (select_and_reserve-IsRegistry r req now ttl v) k.1
      (select_and_reserve-Held r req id until now ttl v k.0 h)
run-Held r (release other ∷ calls) id until v k h =
    run-Held (release_worker r other) calls id until (release_worker-IsRegistry r other v) k.1
      (release_worker-Held r id other until k.0 h)

selected-Held :
    (r : LocalWorkerRegistry) (req : WorkerRequirements) (now ttl : ℕ) (w : WorkerDescriptor)
    → IsRegistry r
    → (select_and_reserve r req now ttl).1 ≡ ok (some w)
    → (select_worker r req now ≡ some w)
      × Held (select_and_reserve r req now ttl).0 w.id (saturating_add u64_max now ttl)
selected-Held r req now ttl w v s =
    let lem = select_and_reserve_lem r req now ttl v in
    let picked : select_worker r req now ≡ some w = elim (Option-cases (select_worker r req now)) [
      | inl e ↦ absurd (ground (arith, s, lem, e))
      | inr (u, e) ↦ ground (arith, s, lem, e)
    ] in
    let pruned = prune_expired r now in
    let whole : select_and_reserve r req now ttl ≡ selected pruned now ttl (some w) =
      lem ∙ ap (selected pruned now ttl) picked in
    (
      picked,
      rw whole (
        reservation_of now ttl,
        ground (
          arith,
          eqb_self w.id,
          Map.get-insert w.id w.id (reservation_of now ttl) pruned.reservations,
        ),
        omega arith,
      ),
    )

-- In a registry whose worker ids differ: after a selection reserved a worker, whatever calls follow at
-- times before the reservation's end without releasing that worker, no selection at such a time
-- returns it.
pub reservation_exclusive :
    (r : LocalWorkerRegistry) (req : WorkerRequirements) (now ttl : ℕ) (w : WorkerDescriptor)
    (calls : List Call) (req' : WorkerRequirements) (now' ttl' : ℕ) (w' : WorkerDescriptor)
    → IsRegistry r
    → (select_and_reserve r req now ttl).1 ≡ ok (some w)
    → All (Keeps w.id (saturating_add u64_max now ttl)) calls
    → now' < saturating_add u64_max now ttl
    → (select_and_reserve (run (select_and_reserve r req now ttl).0 calls) req' now' ttl').1
      ≡ ok (some w')
    → eqb w'.id w.id ≡ false
reservation_exclusive r req now ttl w calls req' now' ttl' w' v s k l s' =
    let r' = (select_and_reserve r req now ttl).0 in
    let v' = select_and_reserve-IsRegistry r req now ttl v in
    let held = (selected-Held r req now ttl w v s).1 in
    let held' = run-Held r' calls w.id (saturating_add u64_max now ttl) v' k held in
    let picked =
      (selected-Held (run r' calls) req' now' ttl' w' (run-IsRegistry r' calls v') s').0 in
    select_worker-Held (run r' calls) req' w.id (saturating_add u64_max now ttl) now' w' l held'
      picked
