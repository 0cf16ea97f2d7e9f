-- ===== src/TaskStore/Table.antt =====
-- The `Map` of tasks in insertion order, and the functions on one task: `#complete`, `#fail`,
-- `#finish`, the worker's `append`, the timer and `cancel`.
use enhanced_ssh.Prelude.{
  ℕ, suc, ◌+◌, Bool, true, false, String, List, [], ◌∷◌, Option, none, some, leb, ◌==◌,
  if◌then◌else◌, str_eq,
}
use mathlib.Core.Option.{get_or as or_else}
use enhanced_ssh.Errors.{
  Failure, gateway, range_error, other_error, internal_error, GatewayErrorCode,
}
use enhanced_ssh.RollingLog
use enhanced_ssh.TaskStore.Types.{
  InternalTask, TaskCompletion, TaskState, succeeded, failed, timed_out, cancelled,
  ExecutionTermination, exit, timeout, cancel, output_limit, spawn_error, RequestedStop,
  stop_cancelled, TaskOutputStream, stdout, stderr, ExitCode, is_running, state_of_stop,
  termination_of_stop,
}

-- exitCode === 0
abbrev pub is_exit_zero : ExitCode → Bool
is_exit_zero (some (some code)) = code == 0
is_exit_zero (some none) = false
is_exit_zero none = false

unfoldable pub state_for_termination : Option ExecutionTermination → ExitCode → TaskState
state_for_termination (some timeout) exit_code = timed_out
state_for_termination (some cancel) exit_code = cancelled
state_for_termination (some exit) exit_code = if is_exit_zero exit_code then succeeded else failed
state_for_termination (some output_limit) exit_code = failed
state_for_termination (some spawn_error) exit_code = failed
state_for_termination none exit_code = succeeded

-- The first value if it is defined, else the second.
abbrev pub or_keep {ℓ} : {A : Type ℓ} → Option A → Option A → Option A
or_keep none old = old
or_keep (some a) old = some a

-- What the `catch` of a worker records of an error.
abbrev pub public_failure : Failure → GatewayErrorCode × String
public_failure (gateway e) = (e.code, e.message)
public_failure (range_error m) = (internal_error, "Task failed inside the SSH Gateway")
public_failure (other_error m) = (internal_error, "Task failed inside the SSH Gateway")

module _ {R : Type 0} where
  unfoldable pub finish : ℕ → ℕ → InternalTask R → InternalTask R
  finish ttl_ms now task = record task {
    finished_at_ms = some now;
    updated_at_ms = now;
    expires_at_ms = some (now + ttl_ms);
  }

  -- Both `#complete` and `#fail` begin so: a requested stop decides the final state.
  abbrev pub stopped : RequestedStop → InternalTask R → InternalTask R
  stopped stop task = record task {
    state = state_of_stop stop;
    termination = some (termination_of_stop stop);
    exit_code = some none;
  }

  abbrev pub completed : TaskCompletion R → InternalTask R → InternalTask R
  completed completion task = record task {
    termination = or_keep completion.termination task.termination;
    exit_code = or_keep completion.exit_code task.exit_code;
    state = state_for_termination completion.termination completion.exit_code;
  }

  unfoldable pub complete : ℕ → ℕ → TaskCompletion R → InternalTask R → InternalTask R
  unfolding finish state_for_termination
  complete ttl_ms now completion task =
      let with_result : InternalTask R = record task {
        result = or_keep completion.result task.result;
      } in
      let settled : InternalTask R = elim task.requested_stop [
        | some stop ↦ stopped stop with_result
        | none ↦ completed completion with_result
      ] in
      finish ttl_ms now settled

  unfoldable pub fail : ℕ → ℕ → Failure → InternalTask R → InternalTask R
  unfolding finish
  fail ttl_ms now failure task =
      let settled : InternalTask R = elim task.requested_stop [
        | some stop ↦ stopped stop task
        | none ↦ record task { state = failed; error = some (public_failure failure) }
      ] in
      finish ttl_ms now settled

  -- context.append
  unfoldable pub append_output : ℕ → TaskOutputStream → List ℕ → InternalTask R → InternalTask R
  append_output now stream bytes task =
      let written : InternalTask R = elim stream [
        | stdout ↦ record task {
          out_log = RollingLog.append task.out_log bytes;
          updated_at_ms = now;
        }
        | stderr ↦ record task {
          err_log = RollingLog.append task.err_log bytes;
          updated_at_ms = now;
        }
      ] in
      if is_running task.state then written else task

  -- task.state !== "running" || task.requestedStop !== undefined
  abbrev pub may_stop : InternalTask R → Bool
  may_stop task = elim task.requested_stop [ none ↦ is_running task.state | some stop ↦ false ]

  -- The assignments of `cancel` and of the timer.
  unfoldable pub request_stop : RequestedStop → InternalTask R → InternalTask R
  request_stop stop task =
      if may_stop task then record task { requested_stop = some stop; aborted = true } else task

  -- The body of the loop in `shutdown`: `task.requestedStop ??= "cancelled"`.
  unfoldable pub stop_for_shutdown : InternalTask R → InternalTask R
  stop_for_shutdown task =
      if is_running task.state
      then record task {
        requested_stop = or_keep task.requested_stop (some stop_cancelled);
        aborted = true;
      }
      else task

  unfoldable pub find : String → List (InternalTask R) → Option (InternalTask R)
  find id [] = none
  find id (t ∷ ts) = if str_eq t.run_id id then some t else find id ts

  -- this.#tasks.delete(id)
  unfoldable pub remove : String → List (InternalTask R) → List (InternalTask R)
  remove id [] = []
  remove id (t ∷ ts) = if str_eq t.run_id id then ts else t ∷ remove id ts

  -- A change of the task object under `id`: the source holds a reference to the object and assigns to
  -- its fields, and the `Map` sees that.
  unfoldable pub modify :
      String → (InternalTask R → InternalTask R) → List (InternalTask R) → List (InternalTask R)
  modify id f [] = []
  modify id f (t ∷ ts) = if str_eq t.run_id id then f t ∷ ts else t ∷ modify id f ts

  unfoldable pub active_count : List (InternalTask R) → ℕ
  active_count [] = 0
  active_count (t ∷ ts) = if is_running t.state then suc (active_count ts) else active_count ts

  -- task.expiresAtMs !== undefined && task.expiresAtMs <= now
  abbrev pub is_expired : ℕ → InternalTask R → Bool
  is_expired now t = elim t.expires_at_ms [ none ↦ false | some e ↦ leb e now ]

  unfoldable pub cleanup : ℕ → List (InternalTask R) → List (InternalTask R)
  cleanup now [] = []
  cleanup now (t ∷ ts) = let rest = cleanup now ts in if is_expired now t then rest else t ∷ rest

  -- task.finishedAtMs ?? 0
  abbrev pub finished_key : InternalTask R → ℕ
  finished_key t = or_else t.finished_at_ms 0

  -- The head of the finished tasks, sorted by `finishedAtMs`; the sort is stable.
  unfoldable pub earliest_finished : List (InternalTask R) → Option (InternalTask R)
  earliest_finished [] = none
  earliest_finished (t ∷ ts) =
      let later = earliest_finished ts in
      if is_running t.state then later else elim later [
        | none ↦ some t
        | some u ↦ if leb (finished_key t) (finished_key u) then some t else some u
      ]
