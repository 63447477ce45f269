-- ===== src/Task/Resources.antt =====
-- crates/nxr-task/src/resources.rs: the demand of a node and the pool it is taken from.
use Prim.Native.Nat.{max}
use nxr.Base.{ℕ, [], Bool, ◌&&◌, ◌||◌, List, String, ◌==◌, leb, if◌then◌else◌}
use nxr.Base.Words.{u32_max}

pub record NodeResources : Type 0 where
  pub cpu : ℕ
  pub memory_bytes : ℕ
  pub exclusive : List String

abbrev pub empty_resources : NodeResources
empty_resources = record { cpu = 0; memory_bytes = 0; exclusive = [] }

unfoldable pub cpu_tokens : NodeResources → ℕ
cpu_tokens r = if r.cpu == 0 then 1 else r.cpu

pub record ResourceLimits : Type 0 where
  pub cpu_pool : ℕ
  pub memory_pool : ℕ

-- `env_pool` is what `memory_pool_from_env` reads from the environment.
unfoldable pub from_jobs : (jobs env_pool : ℕ) → ResourceLimits
from_jobs jobs env_pool = record {
  cpu_pool = max (if leb jobs u32_max then jobs else u32_max) 1;
  memory_pool = env_pool;
}

unfoldable pub can_schedule_node : ResourceLimits → NodeResources → Bool
unfolding cpu_tokens
can_schedule_node limits r =
    leb (cpu_tokens r) limits.cpu_pool
    && (limits.memory_pool == 0 || r.memory_bytes == 0 || leb r.memory_bytes limits.memory_pool)
