-- ===== src/TaskStore/Store.antt =====
-- The class `TaskStore`. Each method takes the readings of the clock that it makes and the stream of
-- candidate run ids, and returns its result or failure beside the new store.
use enhanced_ssh.Prelude.{
  ℕ, zero, suc, Bool, true, false, ◌&&◌, String, List, [], ◌∷◌, ◌++◌, Option, none, some, leb, ◌==◌,
  if◌then◌else◌, length, codes, all, is_base64url,
}
use Prim.Native.String.{◌++◌ as append_text}
use mathlib.Core.Option.{get_or as or_else}
use enhanced_ssh.Errors.{
  Failure, gateway, range_error, other_error, gateway_error, raise_gateway, number,
  execution_limit_reached, execution_not_found,
}
use enhanced_ssh.Result.{Result, ok, err, ◌>>◌, require}
use enhanced_ssh.RollingLog
use enhanced_ssh.RollingLog.{max_safe_integer}
use enhanced_ssh.TaskStore.Types.{
  InternalTask, TaskState, running, TaskCompletion, StartTaskOptions, TaskStartResult,
  stop_cancelled, stop_timed_out, TaskOutputStream,
}
use enhanced_ssh.TaskStore.Table.{
  complete, fail, append_output, may_stop, request_stop, stop_for_shutdown, find, remove, modify,
  active_count, cleanup, earliest_finished,
}

pub record TaskStore (R : Type 0) : Type 0 where
  pub ttl_ms : ℕ
  pub max_retained_tasks : ℕ
  pub max_concurrent_tasks : ℕ
  pub max_log_bytes_per_stream : ℕ
  pub tasks : List (InternalTask R)
  pub closing : Bool

-- `now` and `createRunId` are arguments of the methods.
pub record TaskStoreOptions : Type 0 where
  pub ttl_ms : ℕ
  pub max_retained_tasks : ℕ
  pub max_concurrent_tasks : ℕ
  pub max_log_bytes_per_stream : Option ℕ

abbrev pub require_positive_integer : ℕ → String → Result (Unit {0})
require_positive_integer value name =
    require (leb value max_safe_integer && leb 1 value)
      (range_error (append_text name " must be a positive safe integer"))

abbrev pub default_max_log_bytes : ℕ
default_max_log_bytes = 1048576

-- /^[A-Za-z0-9_-]{43}$/u
unfoldable pub is_run_id : String → Bool
is_run_id id = length (codes id) == 43 && all is_base64url (codes id)

abbrev pub gateway_stopping : Failure
gateway_stopping = raise_gateway execution_limit_reached "Gateway is stopping"

abbrev pub concurrency_reached : ℕ → Failure
concurrency_reached maximum = gateway (
    gateway_error execution_limit_reached "Task concurrency limit reached"
      (some (("maximum", number maximum) ∷ [])))

abbrev pub retention_reached : ℕ → Failure
retention_reached maximum = gateway (
    gateway_error execution_limit_reached "Task retention limit reached"
      (some (("maximum", number maximum) ∷ [])))

abbrev pub task_not_found : Failure
task_not_found = raise_gateway execution_not_found "Task was not found or has expired"

-- if (options.timeoutMs !== undefined) requirePositiveInteger(...)
abbrev pub check_timeout : Option ℕ → Result (Unit {0})
check_timeout none = ok tt
check_timeout (some ms) = require_positive_integer ms "timeoutMs"

module _ {R : Type 0} where
  unfoldable pub create : TaskStoreOptions → Result (TaskStore R)
  create options = do
    require_positive_integer options.ttl_ms "ttlMs"
    require_positive_integer options.max_retained_tasks "maxRetainedTasks"
    require_positive_integer options.max_concurrent_tasks "maxConcurrentTasks"
    let log_bytes = or_else options.max_log_bytes_per_stream default_max_log_bytes
    require_positive_integer log_bytes "maxLogBytesPerStream"
    ok (record {
      ttl_ms = options.ttl_ms;
      max_retained_tasks = options.max_retained_tasks;
      max_concurrent_tasks = options.max_concurrent_tasks;
      max_log_bytes_per_stream = log_bytes;
      tasks = [];
      closing = false;
    })

  -- The `while` loop of `#makeRetentionRoom`, with fuel.
  unfoldable pub make_room :
      ℕ → ℕ → List (InternalTask R) → Result (Unit {0}) × List (InternalTask R)
  make_room maximum zero tasks = (ok tt, tasks)
  make_room maximum (suc fuel) tasks =
      let full : Result (Unit {0}) × List (InternalTask R) = elim (earliest_finished tasks) [
        | none ↦ (err (retention_reached maximum), tasks)
        | some t ↦ make_room maximum fuel (remove t.run_id tasks)
      ] in
      if leb maximum (length tasks) then full else (ok tt, tasks)

  -- Each round drops a task, so one round more than there are tasks is enough.
  unfoldable pub make_retention_room :
      ℕ → List (InternalTask R) → Result (Unit {0}) × List (InternalTask R)
  make_retention_room maximum tasks = make_room maximum (suc (length tasks)) tasks

  abbrev pub has : String → List (InternalTask R) → Bool
  has id tasks = elim (find id tasks) [ none ↦ false | some t ↦ true ]

  -- `attempts` rounds are left, and `create_run_id k` is the id that call `k` gives.
  unfoldable pub unique_run_id : (ℕ → String) → ℕ → ℕ → List (InternalTask R) → Result String
  unique_run_id create_run_id call zero tasks =
      err (other_error "Could not allocate a unique task run ID")
  unique_run_id create_run_id call (suc attempts) tasks =
      let id = create_run_id call in
      let again = unique_run_id create_run_id (suc call) attempts tasks in
      if is_run_id id
      then (if has id tasks then again else ok id)
      else err (other_error "Task run ID source returned an invalid value")

  abbrev pub new_task : ℕ → ℕ → StartTaskOptions → String → InternalTask R
  new_task log_bytes started_at_ms options id = record {
    run_id = id;
    target = options.target;
    kind = options.kind;
    started_at_ms = started_at_ms;
    aborted = false;
    out_log = RollingLog.create log_bytes;
    err_log = RollingLog.create log_bytes;
    state = running;
    updated_at_ms = started_at_ms;
    finished_at_ms = none;
    expires_at_ms = none;
    termination = none;
    exit_code = none;
    result = none;
    error = none;
    requested_stop = none;
  }

  abbrev pub started : InternalTask R → TaskStartResult
  started t = record {
    run_id = t.run_id;
    target = t.target;
    kind = t.kind;
    state = running;
    started_at_ms = t.started_at_ms;
  }

  -- The part of `start` after the concurrency test.
  unfoldable pub admit :
      TaskStore R → ℕ → (ℕ → String) → StartTaskOptions → Result TaskStartResult × TaskStore R
  admit store started_at_ms create_run_id options =
      let (room, kept) = make_retention_room store.max_retained_tasks store.tasks in
      elim room [
        | err e ↦ (err e, record store { tasks = kept })
        | ok _ ↦ elim (unique_run_id create_run_id 0 8 kept) [
          | err e ↦ (err e, record store { tasks = kept })
          | ok id ↦
              let task = new_task store.max_log_bytes_per_stream started_at_ms options id in
              (ok (started task), record store { tasks = kept ++ task ∷ [] })
        ]
      ]

  unfoldable pub start :
      TaskStore R → ℕ → ℕ → (ℕ → String) → StartTaskOptions → Result TaskStartResult × TaskStore R
  start store now started_at_ms create_run_id options =
      let cleaned : TaskStore R = record store { tasks = cleanup now store.tasks } in
      let admitted : Result TaskStartResult × TaskStore R =
        if leb store.max_concurrent_tasks (active_count cleaned.tasks)
        then (err (concurrency_reached store.max_concurrent_tasks), cleaned)
        else admit cleaned started_at_ms create_run_id options in
      let checked : Result TaskStartResult × TaskStore R = elim (check_timeout options.timeout_ms) [
        | err e ↦ (err e, store)
        | ok _ ↦ admitted
      ] in
      if store.closing then (err gateway_stopping, store) else checked

  -- `#require`: the task under `id`, after the expired tasks are gone.
  unfoldable pub require_task : TaskStore R → ℕ → String → Result (InternalTask R) × TaskStore R
  require_task store now id =
      let kept = cleanup now store.tasks in
      let found : Result (InternalTask R) = elim (find id kept) [
        | none ↦ err task_not_found
        | some t ↦ ok t
      ] in
      ((if is_run_id id then found else err task_not_found), record store { tasks = kept })

  unfoldable pub cancel : TaskStore R → ℕ → String → Result (Bool × TaskState) × TaskStore R
  cancel store now id =
      let (found, cleaned) = require_task store now id in
      elim found [
        | err e ↦ (err e, cleaned)
        | ok t ↦ (
          ok (may_stop t, t.state),
          record cleaned { tasks = modify id (request_stop stop_cancelled) cleaned.tasks },
        )
      ]

  -- `#complete` and `#fail` of the task under `id`.
  unfoldable pub settle_complete : TaskStore R → ℕ → String → TaskCompletion R → TaskStore R
  settle_complete store now id completion = record store {
    tasks = modify id (complete store.ttl_ms now completion) store.tasks;
  }

  unfoldable pub settle_fail : TaskStore R → ℕ → String → Failure → TaskStore R
  settle_fail store now id failure = record store {
    tasks = modify id (fail store.ttl_ms now failure) store.tasks;
  }

  -- context.append of the worker of the task under `id`.
  unfoldable pub write : TaskStore R → ℕ → String → TaskOutputStream → List ℕ → TaskStore R
  write store now id stream bytes = record store {
    tasks = modify id (append_output now stream bytes) store.tasks;
  }

  -- The timer of the task under `id`.
  unfoldable pub time_out : TaskStore R → String → TaskStore R
  time_out store id = record store { tasks = modify id (request_stop stop_timed_out) store.tasks }

  unfoldable pub stop_all : List (InternalTask R) → List (InternalTask R)
  stop_all [] = []
  stop_all (t ∷ ts) = stop_for_shutdown t ∷ stop_all ts

  -- `shutdown`, up to the point where it waits for the workers.
  unfoldable pub shutdown : TaskStore R → TaskStore R
  shutdown store = record store { closing = true; tasks = stop_all store.tasks }
