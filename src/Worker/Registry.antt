-- ===== src/Worker/Registry.antt =====
-- crates/nxr-core/src/worker_schedule.rs: the registry of workers and their reservations.
use nxr.Base.{
  ℕ, Bool, false, not, ◌&&◌, List, [], ◌∷◌, Option, none, some, String, ltb, all, any, find,
  if◌then◌else◌,
}
use nxr.Base.Order.{string_ord, eqb}
use nxr.Base.Words.{u64_max, saturating_add}
use nxr.Base.Texts.{is_blank}
use nxr.Base.Map
use nxr.Base.Map.{get}

pub record WorkerDescriptor : Type 0 where
  pub id : String
  pub tags : List String
  pub cpu : ℕ
  pub memory_mib : ℕ

pub record WorkerRequirements : Type 0 where
  pub tags : List String
  pub cpu : ℕ
  pub memory_mib : ℕ

pub record WorkerReservation : Type 0 where
  pub expires_at : ℕ

-- The messages of the source, by what they say.
pub data RegistryError : Type 0 where
  empty_id : RegistryError
  unknown_worker : (id : String) → RegistryError
  already_reserved : (id : String) → RegistryError

pub data Result {ℓ} (A : Type ℓ) : Type ℓ where
  ok : A → Result A
  err : RegistryError → Result A

pub record LocalWorkerRegistry : Type 0 where
  pub workers : List WorkerDescriptor
  pub reservations : List (String × WorkerReservation)

abbrev pub unexpired : ℕ → WorkerReservation → Bool
unexpired now reservation = ltb now reservation.expires_at

unfoldable pub reservation_active : LocalWorkerRegistry → String → ℕ → Bool
reservation_active r worker_id now = elim (get worker_id r.reservations) [
  | none ↦ false
  | some reservation ↦ unexpired now reservation
]

unfoldable pub worker_satisfies : WorkerDescriptor → WorkerRequirements → Bool
worker_satisfies worker requirements =
    all (λ tag. any (λ t. eqb t tag) worker.tags) requirements.tags
    && not (ltb worker.cpu requirements.cpu)
    && not (ltb worker.memory_mib requirements.memory_mib)

unfoldable pub prune_expired : LocalWorkerRegistry → ℕ → LocalWorkerRegistry
prune_expired r now = record r { reservations = Map.retain (unexpired now) r.reservations }

unfoldable pub release_worker : LocalWorkerRegistry → String → LocalWorkerRegistry
release_worker r worker_id = record r { reservations = Map.remove worker_id r.reservations }

-- The first worker of the same id is replaced in place, or the worker is added at the end.
unfoldable pub replace_or_push : WorkerDescriptor → List WorkerDescriptor → List WorkerDescriptor
replace_or_push worker [] = worker ∷ []
replace_or_push worker (entry ∷ rest) =
    let others = replace_or_push worker rest in
    if eqb entry.id worker.id then worker ∷ rest else entry ∷ others

unfoldable pub register_worker :
    LocalWorkerRegistry → WorkerDescriptor → LocalWorkerRegistry × Result (Unit {0})
register_worker r worker =
    if is_blank worker.id
    then (r, err empty_id)
    else (record r { workers = replace_or_push worker r.workers }, ok tt)

abbrev pub eligible : LocalWorkerRegistry → WorkerRequirements → ℕ → WorkerDescriptor → Bool
eligible r requirements now worker =
    not (reservation_active r worker.id now) && worker_satisfies worker requirements

-- `now` is the clock that the source reads.
unfoldable pub select_worker :
    LocalWorkerRegistry → WorkerRequirements → ℕ → Option WorkerDescriptor
select_worker r requirements now = find (eligible r requirements now) r.workers

abbrev pub has_id : String → WorkerDescriptor → Bool
has_id worker_id worker = eqb worker.id worker_id

unfoldable pub reserve_worker :
    LocalWorkerRegistry → String → ℕ → ℕ → LocalWorkerRegistry × Result (Unit {0})
reserve_worker r worker_id now ttl_secs =
    let pruned = prune_expired r now in
    if not (any (has_id worker_id) pruned.workers)
    then (pruned, err (unknown_worker worker_id))
    else if reservation_active pruned worker_id now
    then (pruned, err (already_reserved worker_id))
    else (
      record pruned {
        reservations =
            Map.insert worker_id (record { expires_at = saturating_add u64_max now ttl_secs })
              pruned.reservations;
      },
      ok tt,
    )

unfoldable pub confirm :
    String
    → LocalWorkerRegistry × Result (Unit {0})
    → LocalWorkerRegistry × Result (Option WorkerDescriptor)
confirm worker_id (r, err e) = (r, err e)
confirm worker_id (r, ok _) = (r, ok (find (has_id worker_id) r.workers))

unfoldable pub reserve_picked :
    LocalWorkerRegistry
    → ℕ
    → ℕ
    → Option WorkerDescriptor
    → LocalWorkerRegistry × Result (Option WorkerDescriptor)
reserve_picked r now ttl_secs none = (r, ok none)
reserve_picked r now ttl_secs (some picked) =
    confirm picked.id (reserve_worker r picked.id now ttl_secs)

unfoldable pub select_and_reserve :
    LocalWorkerRegistry
    → WorkerRequirements
    → ℕ
    → ℕ
    → LocalWorkerRegistry × Result (Option WorkerDescriptor)
select_and_reserve r requirements now ttl_secs =
    let pruned = prune_expired r now in
    reserve_picked pruned now ttl_secs (find (eligible pruned requirements now) pruned.workers)
