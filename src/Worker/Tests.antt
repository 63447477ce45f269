-- ===== src/Worker/Tests.antt =====
-- crates/nxr-core/src/worker_schedule.rs: two workers, one of them reserved.
use nxr.Base.{◌≡◌, refl, false, List, [], ◌∷◌, some, String, arith}
use nxr.Base.Order.{string_ord, eqb}
use nxr.Base.Texts.{is_blank, is_whitespace}
use nxr.Base.Map
use nxr.Base.Map.{get}
use nxr.Worker.Registry.{
  WorkerDescriptor, WorkerRequirements, ok, LocalWorkerRegistry, reservation_active,
  worker_satisfies, prune_expired, select_worker, reserve_worker, confirm, reserve_picked,
  select_and_reserve, register_worker, replace_or_push, release_worker,
}
use nxr.Worker.Reserve.{IsRegistry}
use nxr.Worker.Select.{selected, select_and_reserve_lem}
use nxr.Worker.Lease.{Call, reserve, register, release, run, run-IsRegistry, reservation_exclusive}

abbrev gpu : WorkerDescriptor
gpu = record { id = "gpu"; tags = "linux" ∷ "cuda" ∷ []; cpu = 8; memory_mib = 4096 }

abbrev mac : WorkerDescriptor
mac = record { id = "mac"; tags = "darwin" ∷ []; cpu = 4; memory_mib = 2048 }

abbrev registry : LocalWorkerRegistry
registry = record { workers = gpu ∷ mac ∷ []; reservations = [] }

abbrev registry_valid : IsRegistry registry
registry_valid = record { sorted = tt; distinct = (refl, (refl, tt)) }

abbrev wants_cuda : WorkerRequirements
wants_cuda = record { tags = "cuda" ∷ []; cpu = 2; memory_mib = 1024 }

abbrev wants_any : WorkerRequirements
wants_any = record { tags = []; cpu = 1; memory_mib = 0 }

abbrev after : LocalWorkerRegistry
after = (select_and_reserve registry wants_cuda 100 60).0

abbrev calls : List Call
calls = reserve "gpu" 110 5 ∷ register gpu ∷ release "mac" ∷ []

reserved-gpu : (select_and_reserve registry wants_cuda 100 60).1 ≡ ok (some gpu)
unfolding select_and_reserve reserve_picked confirm reserve_worker prune_expired reservation_active
    worker_satisfies Map.retain get
reserved-gpu = refl

reserved-mac : (select_and_reserve (run after calls) wants_any 120 60).1 ≡ ok (some mac)
unfolding select_and_reserve reserve_picked confirm reserve_worker prune_expired reservation_active
    worker_satisfies Map.retain Map.remove Map.insert get register_worker replace_or_push is_blank
    is_whitespace release_worker
reserved-mac = refl

select_and_reserve_lem_example :
    select_and_reserve registry wants_cuda 100 60
    ≡ selected (prune_expired registry 100) 100 60 (select_worker registry wants_cuda 100)
select_and_reserve_lem_example = select_and_reserve_lem registry wants_cuda 100 60 registry_valid

run-IsRegistry_example : IsRegistry (run registry calls)
run-IsRegistry_example = run-IsRegistry registry calls registry_valid

reservation_exclusive_example : eqb {K = String} mac.id gpu.id ≡ false
reservation_exclusive_example =
    reservation_exclusive registry wants_cuda 100 60 gpu calls wants_any 120 60 mac registry_valid
      reserved-gpu (omega arith, (tt, (refl, tt))) (omega arith) reserved-mac
