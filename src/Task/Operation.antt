-- ===== src/Task/Operation.antt =====
-- crates/nxr-core/src/operation.rs: what a node of a plan runs.
use nxr.Base.{Bool, true, false, List, Option, none, String}
use nxr.Task.Schema.{JsonValue}

pub data ProcessRestartPolicy : Type 0 where
  never on_failure always : ProcessRestartPolicy

pub data Operation : Type 0 where
  flake_app : (name : String) → Operation
  nix_build : (installable : String) → Operation
  native_command : (argv : List String) → Operation
  workspace_script : (path : String) → (interpreter : Option String) → Operation
  process : (app readiness : String) → (restart : Option ProcessRestartPolicy) → Operation
  wasi_component : (component world : String) → (capabilities : List String) → Operation
  adapter : (adapter_kind : String) → (configuration : JsonValue) → Operation
  win_build_task : (task_id manifest : String) → Operation
  remote :
      (target task source_url source_revision lock_digest source_ref lock_file build_root
        manifest : String)
      → Operation

unfoldable pub from_task_app : String → Operation
from_task_app app = flake_app app

unfoldable pub from_process_app : String → Operation
from_process_app app = process app "" none

unfoldable pub kind : Operation → String
kind (flake_app _) = "flake_app"
kind (nix_build _) = "nix_build"
kind (native_command _) = "native_command"
kind (workspace_script _ _) = "workspace_script"
kind (process _ _ _) = "process"
kind (wasi_component _ _ _) = "wasi_component"
kind (adapter _ _) = "adapter"
kind (win_build_task _ _) = "win_build_task"
kind (remote _ _ _ _ _ _ _ _ _) = "remote"

unfoldable pub requires_nix : Operation → Bool
requires_nix (flake_app _) = true
requires_nix (nix_build _) = true
requires_nix (native_command _) = false
requires_nix (workspace_script _ _) = true
requires_nix (process _ _ _) = true
requires_nix (wasi_component _ _ _) = false
requires_nix (adapter _ _) = false
requires_nix (win_build_task _ _) = false
requires_nix (remote _ _ _ _ _ _ _ _ _) = false
