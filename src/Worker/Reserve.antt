-- ===== src/Worker/Reserve.antt =====
-- crates/nxr-core/src/worker_schedule.rs: the registry's invariant, and what a selection reserves.
use nxr.Base.{
  ℕ, ◌≡◌, refl, Bool, true, false, not, ◌||◌, List, [], ◌∷◌, some, String, arith, any, find,
  if◌then◌else◌, Option-cases, inl, inr,
}
use nxr.Base.Order.{string_ord, eqb, eqb_iff, eqb_self}
use nxr.Base.Map
use nxr.Base.Map.{get}
use nxr.Base.Texts.{is_blank}
use nxr.Worker.Registry.{
  WorkerDescriptor, WorkerRequirements, Result, LocalWorkerRegistry, unexpired, reservation_active,
  prune_expired, release_worker, replace_or_push, register_worker, eligible, has_id, reserve_worker,
}

abbrev pub DistinctIds : List WorkerDescriptor → Type 0
DistinctIds [] = Unit
DistinctIds (w ∷ ws) = (any (has_id w.id) ws ≡ false) × DistinctIds ws

-- No two workers have an id in common.
pub record IsRegistry (r : LocalWorkerRegistry) : Type 0 where
  pub sorted : Map.IsSorted r.reservations
  pub distinct : DistinctIds r.workers

any-replace_or_push :
    (k : String) (w : WorkerDescriptor) (ws : List WorkerDescriptor)
    → any (has_id k) (replace_or_push w ws) ≡ (eqb w.id k || any (has_id k) ws)
unfolding replace_or_push
any-replace_or_push k w [] = ground arith
any-replace_or_push k w (v ∷ ws) = ground (arith, eqb_iff v.id w.id, any-replace_or_push k w ws)

replace_or_push-DistinctIds :
    (w : WorkerDescriptor) (ws : List WorkerDescriptor)
    → DistinctIds ws
    → DistinctIds (replace_or_push w ws)
unfolding replace_or_push
replace_or_push-DistinctIds w [] d = (refl, tt)
replace_or_push-DistinctIds w (v ∷ ws) d = ground (
  arith,
  d.0,
  d.1,
  eqb_iff v.id w.id,
  eqb_iff w.id v.id,
  any-replace_or_push v.id w ws,
  replace_or_push-DistinctIds w ws d.1,
)

pub if_either {ℓ κ} :
    {A : Type ℓ} (P : A → Type κ) (b : Bool) (x y : A) → P x → P y → P (if b then x else y)
if_either P true x y p q = p
if_either P false x y p q = q

pub register_worker-IsRegistry :
    (r : LocalWorkerRegistry) (w : WorkerDescriptor)
    → IsRegistry r
    → IsRegistry (register_worker r w).0
unfolding register_worker
register_worker-IsRegistry r w v =
    if_either (λ (p : LocalWorkerRegistry × Result (Unit {0})). IsRegistry p.0) (is_blank w.id) _ _
      v
      (record { sorted = v.sorted; distinct = replace_or_push-DistinctIds w r.workers v.distinct })

pub prune_expired-IsRegistry :
    (r : LocalWorkerRegistry) (now : ℕ) → IsRegistry r → IsRegistry (prune_expired r now)
unfolding prune_expired
prune_expired-IsRegistry r now v = record {
  sorted = Map.retain-IsSorted (unexpired now) r.reservations v.sorted;
  distinct = v.distinct;
}

pub release_worker-IsRegistry :
    (r : LocalWorkerRegistry) (id : String) → IsRegistry r → IsRegistry (release_worker r id)
unfolding release_worker
release_worker-IsRegistry r id v = record {
  sorted = Map.remove-IsSorted id r.reservations v.sorted;
  distinct = v.distinct;
}

pub reserve_worker-IsRegistry :
    (r : LocalWorkerRegistry) (id : String) (now ttl : ℕ)
    → IsRegistry r
    → IsRegistry (reserve_worker r id now ttl).0
unfolding reserve_worker
reserve_worker-IsRegistry r id now ttl v =
    let pruned = prune_expired r now in
    let v' = prune_expired-IsRegistry r now v in
    if_either (λ (p : LocalWorkerRegistry × Result (Unit {0})). IsRegistry p.0)
      (not (any (has_id id) pruned.workers)) _ _ v'
      (if_either (λ (p : LocalWorkerRegistry × Result (Unit {0})). IsRegistry p.0)
        (reservation_active pruned id now) _ _ v'
        (record {
          sorted = Map.insert-IsSorted id _ pruned.reservations v'.sorted;
          distinct = v'.distinct;
        }))

-- Dropping expired reservations changes no answer at that time.
pub prune_expired-active :
    (r : LocalWorkerRegistry) (id : String) (now : ℕ)
    → IsRegistry r
    → reservation_active (prune_expired r now) id now ≡ reservation_active r id now
unfolding reservation_active prune_expired
prune_expired-active r id now v =
    elim (Option-cases (get id (Map.retain (unexpired now) r.reservations))) [
      | inr (e, h) ↦
          ground (arith, h, Map.retain-get (unexpired now) id e r.reservations v.sorted h)
      | inl h ↦ elim (Option-cases (get id r.reservations)) [
        | inl g ↦ ground (arith, h, g)
        | inr (e, g) ↦ ground (arith, h, g, Map.get-retain (unexpired now) id e r.reservations g)
      ]
    ]

pub eligible-prune_expired :
    (r : LocalWorkerRegistry) (req : WorkerRequirements) (now : ℕ) (ws : List WorkerDescriptor)
    → IsRegistry r
    → find (eligible (prune_expired r now) req now) ws ≡ find (eligible r req now) ws
eligible-prune_expired r req now [] v = refl
eligible-prune_expired r req now (w ∷ ws) v =
    ground (arith, prune_expired-active r w.id now v, eligible-prune_expired r req now ws v)

pub find-any :
    (p : WorkerDescriptor → Bool) (ws : List WorkerDescriptor) (w : WorkerDescriptor)
    → find p ws ≡ some w
    → any (has_id w.id) ws ≡ true
find-any p [] w h = cc
find-any p (v ∷ ws) w h = ground (arith, h, eqb_self v.id, eqb_self w.id, find-any p ws w)

-- A worker that some search finds is found by its id.
pub find-has_id :
    (p : WorkerDescriptor → Bool) (ws : List WorkerDescriptor) (w : WorkerDescriptor)
    → DistinctIds ws
    → find p ws ≡ some w
    → find (has_id w.id) ws ≡ some w
find-has_id p [] w d h = cc
find-has_id p (v ∷ ws) w d h =
    ground
      (arith, h, d.0, eqb_iff v.id w.id, eqb_self w.id, find-any p ws w, find-has_id p ws w d.1)
