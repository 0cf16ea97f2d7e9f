-- ===== src/TaskStore/Types.antt =====
-- The data of src/core/task-store.ts. `R` is the type of a worker's result record, which the store
-- only carries. Times are milliseconds; the ISO rendering of a time is not modelled.
use enhanced_ssh.Prelude.{ℕ, Bool, true, false, String, Option}
use enhanced_ssh.Errors.{GatewayErrorCode}
use enhanced_ssh.RollingLog.{RollingLog}

pub data TaskKind : Type 0 where
  exec upload download sync : TaskKind

pub data TaskState : Type 0 where
  running succeeded failed timed_out cancelled : TaskState

pub data ExecutionTermination : Type 0 where
  exit timeout cancel output_limit spawn_error : ExecutionTermination

-- The values of `requestedStop`.
pub data RequestedStop : Type 0 where
  stop_cancelled stop_timed_out : RequestedStop

pub data TaskOutputStream : Type 0 where
  stdout stderr : TaskOutputStream

-- `exitCode` may be absent, null or a number.
abbrev pub ExitCode : Type 0
ExitCode = Option (Option ℕ)

pub record TaskCompletion (R : Type 0) : Type 0 where
  pub termination : Option ExecutionTermination
  pub exit_code : ExitCode
  pub result : Option R

pub record StartTaskOptions : Type 0 where
  pub kind : TaskKind
  pub target : String
  pub timeout_ms : Option ℕ

-- `aborted` is the state of the task's AbortController.
pub record InternalTask (R : Type 0) : Type 0 where
  pub run_id : String
  pub target : String
  pub kind : TaskKind
  pub started_at_ms : ℕ
  pub aborted : Bool
  pub out_log : RollingLog
  pub err_log : RollingLog
  pub state : TaskState
  pub updated_at_ms : ℕ
  pub finished_at_ms : Option ℕ
  pub expires_at_ms : Option ℕ
  pub termination : Option ExecutionTermination
  pub exit_code : ExitCode
  pub result : Option R
  pub error : Option (GatewayErrorCode × String)
  pub requested_stop : Option RequestedStop

abbrev pub is_running : TaskState → Bool
is_running running = true
is_running _ = false

-- task.state = task.requestedStop
abbrev pub state_of_stop : RequestedStop → TaskState
state_of_stop stop_cancelled = cancelled
state_of_stop stop_timed_out = timed_out

-- task.requestedStop === "timed_out" ? "timeout" : "cancel"
abbrev pub termination_of_stop : RequestedStop → ExecutionTermination
termination_of_stop stop_timed_out = timeout
termination_of_stop stop_cancelled = cancel

pub record TaskStartResult : Type 0 where
  pub run_id : String
  pub target : String
  pub kind : TaskKind
  pub state : TaskState
  pub started_at_ms : ℕ
