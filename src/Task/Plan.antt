-- ===== src/Task/Plan.antt =====
-- crates/nxr-task/src/plan_exec.rs: execution plans. The nodes of a plan are what the scheduler reads.
use nxr.Base.{ℕ, List, Option, String, Bool}
use nxr.Task.Resources.{NodeResources}
use nxr.Task.Operation.{Operation}

pub data FailurePolicy : Type 0 where
  fail_fast keep_going : FailurePolicy

pub data ArgumentForwarding : Type 0 where
  root : ArgumentForwarding

pub record PlanNode : Type 0 where
  pub id : String
  pub depends_on : List String
  pub interactive : Bool
  pub resources : NodeResources
  pub operation : Option Operation
  pub platform : Option String
  pub architecture : Option String
  pub environment : List (String × String)
  pub working_directory : Option String
  pub artifacts : List String
  pub inputs : List String

pub record ExecutionPlan : Type 0 where
  pub schema_version : ℕ
  pub root : String
  pub roots : List String
  pub failure_policy : FailurePolicy
  pub argument_forwarding : ArgumentForwarding
  pub nodes : List PlanNode
  pub serial_order : List String
  pub waves : List (List String)
