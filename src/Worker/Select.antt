-- ===== src/Worker/Select.antt =====
-- crates/nxr-core/src/worker_schedule.rs: selection and reservation in one step.
use nxr.Base.{
  ℕ, ◌≡◌, refl, true, false, Option, none, some, String, arith, any, find, find_holds, Option-cases,
  inl, inr,
}
use nxr.Base.Order.{string_ord}
use nxr.Base.Words.{u64_max, saturating_add}
use nxr.Base.Map
use nxr.Base.Map.{get}
use nxr.Worker.Registry.{
  WorkerDescriptor, WorkerRequirements, WorkerReservation, Result, ok, LocalWorkerRegistry,
  unexpired, reservation_active, prune_expired, eligible, select_worker, has_id, reserve_worker,
  confirm, reserve_picked, select_and_reserve,
}
use nxr.Worker.Reserve.{
  IsRegistry, prune_expired-active, eligible-prune_expired, find-any, find-has_id,
}

-- The reservation that a call at `now` makes.
abbrev pub reservation_of : ℕ → ℕ → WorkerReservation
reservation_of now ttl = record { expires_at = saturating_add u64_max now ttl }

-- A known worker without an active reservation gets one.
pub reserve_worker-free :
    (r : LocalWorkerRegistry) (id : String) (now ttl : ℕ)
    → Map.retain (unexpired now) r.reservations ≡ r.reservations
    → any (has_id id) r.workers ≡ true
    → reservation_active r id now ≡ false
    → reserve_worker r id now ttl
      ≡ (record r { reservations = Map.insert id (reservation_of now ttl) r.reservations }, ok tt)
unfolding reserve_worker prune_expired
reserve_worker-free r id now ttl q k f = rw q (ground (arith, k, f))

pruned_find :
    (r : LocalWorkerRegistry) (req : WorkerRequirements) (now : ℕ)
    → IsRegistry r
    → find (eligible (prune_expired r now) req now) (prune_expired r now).workers
      ≡ select_worker r req now
unfolding select_worker prune_expired
pruned_find r req now v = eligible-prune_expired r req now r.workers v

reserve_picked-some :
    (r : LocalWorkerRegistry) (req : WorkerRequirements) (now ttl : ℕ) (w : WorkerDescriptor)
    → IsRegistry r
    → select_worker r req now ≡ some w
    → reserve_picked (prune_expired r now) now ttl (some w) ≡ (
      record (prune_expired r now) {
        reservations = Map.insert w.id (reservation_of now ttl) (prune_expired r now).reservations;
      },
      ok (some w),
    )
unfolding reserve_picked confirm select_worker prune_expired
reserve_picked-some r req now ttl w v h =
    let pruned = prune_expired r now in
    let free : reservation_active pruned w.id now ≡ false =
      rw (prune_expired-active r w.id now v)
        (ground (arith, find_holds (eligible r req now) r.workers h)) in
    rw
      (
        reserve_worker-free pruned w.id now ttl (Map.retain-retain (unexpired now) r.reservations)
            (find-any (eligible r req now) r.workers w h) free,
        find-has_id (eligible r req now) r.workers w v.distinct h,
      )
      refl

-- The outcome of a selection: no worker, or the worker and its reservation.
abbrev pub selected :
    LocalWorkerRegistry
    → ℕ
    → ℕ
    → Option WorkerDescriptor
    → LocalWorkerRegistry × Result (Option WorkerDescriptor)
selected pruned now ttl none = (pruned, ok none)
selected pruned now ttl (some w) = (
  record pruned { reservations = Map.insert w.id (reservation_of now ttl) pruned.reservations },
  ok (some w),
)

-- On a registry whose worker ids differ, a selection never fails: it returns what `select_worker` picks
-- at that time, and a picked worker is reserved until `now` plus the time to live.
pub select_and_reserve_lem :
    (r : LocalWorkerRegistry) (req : WorkerRequirements) (now ttl : ℕ)
    → IsRegistry r
    → select_and_reserve r req now ttl
      ≡ selected (prune_expired r now) now ttl (select_worker r req now)
unfolding select_and_reserve reserve_picked
select_and_reserve_lem r req now ttl v =
    rw (pruned_find r req now v) (elim (Option-cases (select_worker r req now)) [
      | inl h ↦ rw (h, reserve_picked) refl
      | inr (w, h) ↦ rw h (reserve_picked-some r req now ttl w v h)
    ])
