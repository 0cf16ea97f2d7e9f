-- ===== src/TaskStore/Client.antt =====
-- What a client reads of a task: `status` and `tail` of src/core/task-store.ts. `iso` renders a time as
-- toISOString does.
use enhanced_ssh.Prelude.{ℕ, ◌-◌, Bool, not, ◌&&◌, String, Option, none, some, leb}
use mathlib.Core.Option.{get_or as or_else}
use enhanced_ssh.Errors.{GatewayErrorCode}
use enhanced_ssh.Result.{Result, ok, err, ◌>>=◌}
use enhanced_ssh.RollingLog.{Decoder, Chunk, read}
use enhanced_ssh.TaskStore.Types.{
  TaskKind, TaskState, ExecutionTermination, ExitCode, InternalTask, is_running,
}
use enhanced_ssh.TaskStore.Store.{TaskStore, require_task, require_positive_integer}
use enhanced_ssh.TaskStore.Cursor.{CursorCodec, encode_cursor, decode_cursor}

pub record TaskStatusResult (R : Type 0) : Type 0 where
  pub run_id : String
  pub target : String
  pub kind : TaskKind
  pub state : TaskState
  pub started_at : String
  pub updated_at : String
  pub finished_at : Option String
  pub expires_at : Option String
  pub duration_ms : ℕ
  pub stdout_bytes : ℕ
  pub stderr_bytes : ℕ
  pub termination : Option ExecutionTermination
  pub exit_code : ExitCode
  pub result : Option R
  pub error : Option (GatewayErrorCode × String)

pub record TailStream : Type 0 where
  pub text : String
  pub bytes_read : ℕ
  pub total_bytes : ℕ
  pub dropped_bytes : ℕ
  pub had_decoding_errors : Bool

pub record TaskTailResult : Type 0 where
  pub run_id : String
  pub state : TaskState
  pub stdout_tail : TailStream
  pub stderr_tail : TailStream
  pub next_cursor : String
  pub eof : Bool

abbrev pub rendered : (ℕ → String) → Option ℕ → Option String
rendered iso none = none
rendered iso (some ms) = some (iso ms)

abbrev pub tail_stream : Chunk → ℕ → TailStream
tail_stream chunk total = record {
  text = chunk.text;
  bytes_read = chunk.bytes_read;
  total_bytes = total;
  dropped_bytes = chunk.dropped_bytes;
  had_decoding_errors = chunk.had_decoding_errors;
}

-- The offsets that a tail begins at.
abbrev pub offsets_of : CursorCodec → Option String → String → Result (ℕ × ℕ)
offsets_of codec none run_id = ok (0, 0)
offsets_of codec (some cursor) run_id = do
  decoded ← decode_cursor codec cursor run_id
  ok (decoded.o, decoded.e)

module _ {R : Type 0} where
  abbrev pub status_of : (ℕ → String) → ℕ → InternalTask R → TaskStatusResult R
  status_of iso now task = record {
    run_id = task.run_id;
    target = task.target;
    kind = task.kind;
    state = task.state;
    started_at = iso task.started_at_ms;
    updated_at = iso task.updated_at_ms;
    finished_at = rendered iso task.finished_at_ms;
    expires_at = rendered iso task.expires_at_ms;
    duration_ms = or_else task.finished_at_ms now - task.started_at_ms;
    stdout_bytes = task.out_log.total_bytes;
    stderr_bytes = task.err_log.total_bytes;
    termination = task.termination;
    exit_code = task.exit_code;
    result = task.result;
    error = task.error;
  }

  -- `cleaned_at` and `now` are the two readings of the clock.
  unfoldable pub status :
      (ℕ → String) → TaskStore R → ℕ → ℕ → String → Result (TaskStatusResult R) × TaskStore R
  status iso store cleaned_at now id =
      let (found, cleaned) = require_task store cleaned_at id in
      elim found [ err e ↦ (err e, cleaned) | ok task ↦ (ok (status_of iso now task), cleaned) ]

  -- The result of `tail`.
  abbrev pub tail_result : CursorCodec → InternalTask R → String → Chunk → Chunk → TaskTailResult
  tail_result codec task id out err_chunk = record {
    run_id = id;
    state = task.state;
    stdout_tail = tail_stream out task.out_log.total_bytes;
    stderr_tail = tail_stream err_chunk task.err_log.total_bytes;
    next_cursor = encode_cursor codec id out.next_offset err_chunk.next_offset;
    eof =
        not (is_running task.state)
        && leb task.out_log.total_bytes out.next_offset
        && leb task.err_log.total_bytes err_chunk.next_offset;
  }

  -- `tail` of the task that was found.
  unfoldable pub tail_of :
      Decoder → CursorCodec → InternalTask R → String → Option String → ℕ → Result TaskTailResult
  tail_of decoder codec task id cursor limit = do
    offsets ← offsets_of codec cursor id
    let terminal = not (is_running task.state)
    out ← read decoder task.out_log offsets.0 limit terminal
    err_chunk ← read decoder task.err_log offsets.1 limit terminal
    ok (tail_result codec task id out err_chunk)

  -- `tail` after the look-up.
  unfoldable pub tail_found :
      Decoder
      → CursorCodec
      → String
      → Option String
      → ℕ
      → Result (InternalTask R) × TaskStore R
      → Result TaskTailResult × TaskStore R
  tail_found decoder codec id cursor limit (err e, cleaned) = (err e, cleaned)
  tail_found decoder codec id cursor limit (ok task, cleaned) =
      (tail_of decoder codec task id cursor limit, cleaned)

  -- `tail` after the test of the limit.
  unfoldable pub tail_checked :
      Result (Unit {0})
      → TaskStore R
      → Result TaskTailResult × TaskStore R
      → Result TaskTailResult × TaskStore R
  tail_checked (err e) store tailed = (err e, store)
  tail_checked (ok _) store tailed = tailed

  unfoldable pub tail :
      Decoder
      → CursorCodec
      → TaskStore R
      → ℕ
      → String
      → Option String
      → ℕ
      → Result TaskTailResult × TaskStore R
  tail decoder codec store now id cursor limit =
      tail_checked (require_positive_integer limit "limit") store
        (tail_found decoder codec id cursor limit (require_task store now id))
