-- ===== src/TaskStore/ClientTests.antt =====
-- A finished task looked at and tailed, cursors at work, and the theorems at concrete inputs. The first
-- codec prints every cursor alike and gives every text the same hash; the second one's hash tells texts
-- apart.
use Prim.Native.String.{slice}
use enhanced_ssh.Prelude.{
  ℕ, true, false, String, List, [], ◌∷◌, none, some, ◌≡◌, refl, arith, get, if◌then◌else◌, str_eq,
  eq_iff, ◌≢◌,
}
use enhanced_ssh.Errors.{gateway_error, rpc_code_of}
use enhanced_ssh.Result.{ok, err}
use enhanced_ssh.Utf8.{complete_utf8_prefix_length}
use enhanced_ssh.ProbeParser.Fields.{decimal_digits}
use enhanced_ssh.RollingLog.{invalid_cursor, Decoder, read, page, widen, trim, utf8_sequence_length}
use enhanced_ssh.RollingLog.History.{log_of}
use enhanced_ssh.TaskStore.Types.{InternalTask, exec, succeeded, exit}
use enhanced_ssh.TaskStore.Table.{find, cleanup}
use enhanced_ssh.TaskStore.Store.{TaskStore, is_run_id, require_task}
use enhanced_ssh.TaskStore.Cursor.{
  object, number, string, CursorCodec, offset_text, task_cursor_binding, cursor_json, encode_cursor,
  safe_offset, cursor_of, read_cursor, check_binding, decode_cursor, has_cursor_keys, sorted_keys,
  insert_key,
}
use enhanced_ssh.RemoteCommand.Validate.{is_before, same_text}
use enhanced_ssh.RemoteCommand.Render.{join_with}
use enhanced_ssh.TaskStore.CursorLaws.{
  bound_text, NoCollision, decode_cursor-encode_cursor, decode_cursor-other,
}
use enhanced_ssh.TaskStore.Client.{
  TaskTailResult, offsets_of, status_of, status, tail, tail_found, tail_checked, tail_of,
}
use enhanced_ssh.TaskStore.Tailing.{TailShows, tail-TailShows}

abbrev id_a : String
id_a = "aaaaaaaaaaaaaaaaaaaaaaaaaaaaaaaaaaaaaaaaaaa"

abbrev codec : CursorCodec
codec = record {
  print_json = λ json. "cursor";
  parse_json = λ value.
      some
        (object (("v", number 2) ∷ ("o", number 1) ∷ ("e", number 0) ∷ ("b", string "bound") ∷ []));
  hash = λ value. "bound";
}

abbrev decoder : Decoder
decoder = record { to_text = λ bytes. "decoded"; is_valid = λ bytes. true }

abbrev out_bytes : List ℕ
out_bytes = 0x61 ∷ 0x62 ∷ 0x63 ∷ []

abbrev finished : InternalTask ℕ
finished = record {
  run_id = id_a;
  target = "build";
  kind = exec;
  started_at_ms = 5;
  aborted = false;
  out_log = log_of 2 out_bytes;
  err_log = log_of 2 [];
  state = succeeded;
  updated_at_ms = 9;
  finished_at_ms = some 9;
  expires_at_ms = some 109;
  termination = some exit;
  exit_code = some (some 0);
  result = some 7;
  error = none;
  requested_stop = none;
}

abbrev store : TaskStore ℕ
store = record {
  ttl_ms = 100;
  max_retained_tasks = 2;
  max_concurrent_tasks = 1;
  max_log_bytes_per_stream = 2;
  tasks = finished ∷ [];
  closing = false;
}

run_client : Unit {0}
unfolding find cleanup is_run_id require_task offset_text task_cursor_binding cursor_json
    encode_cursor safe_offset cursor_of read_cursor check_binding decode_cursor status tail
    tail_found tail_checked tail_of read page widen trim utf8_sequence_length
    complete_utf8_prefix_length decimal_digits gateway_error rpc_code_of has_cursor_keys sorted_keys
    insert_key get is_before same_text join_with
run_client = tt

found : require_task store 20 id_a ≡ (ok finished, store)
unfolding run_client
found = refl

offsets_read : offsets_of codec (some "cursor") id_a ≡ ok (1, 0)
unfolding run_client
offsets_read = refl

reads_back : codec.parse_json (encode_cursor codec id_a 1 0) ≡ some (cursor_json codec id_a 1 0)
unfolding run_client
reads_back = refl

status_duration :
    (status (λ ms. "time") store 20 21 id_a).0 ≡ ok (status_of (λ ms. "time") 30 finished)
unfolding run_client
status_duration = refl

tail-TailShows_example :
    (result : TaskTailResult) × (tail decoder codec store 20 id_a (some "cursor") 10
      ≡ (ok result, store))
    × TailShows decoder codec finished id_a out_bytes [] 1 0 result
tail-TailShows_example =
    tail-TailShows decoder codec store store 20 finished id_a (some "cursor") 10 1 0 out_bytes []
      (omega arith) (omega arith) found offsets_read
      (record { limit = 2; log_is = refl; known = omega arith; safe = omega arith })
      (record { limit = 2; log_is = refl; known = omega arith; safe = omega arith })

decode_cursor-encode_cursor_example :
    decode_cursor codec (encode_cursor codec id_a 1 0) id_a
    ≡ ok (record { o = 1; e = 0; b = task_cursor_binding codec id_a 1 0 })
decode_cursor-encode_cursor_example =
    decode_cursor-encode_cursor codec id_a 1 0 reads_back (omega arith) (omega arith)

-- A hash that tells the text of one run from all others, with a reader for the cursor of that run.
abbrev telling : CursorCodec
telling = record {
  print_json = λ json. "cursor";
  parse_json = λ value.
      some
        (object (("v", number 2) ∷ ("o", number 1) ∷ ("e", number 0) ∷ ("b", string "first") ∷ []));
  hash = λ value. if str_eq value (bound_text id_a 1 0) then "first" else "second";
}

telling_reads :
    telling.parse_json (encode_cursor telling id_a 1 0) ≡ some (cursor_json telling id_a 1 0)
unfolding run_client
telling_reads = refl

telling_tells : NoCollision telling (bound_text id_a 1 0) (bound_text "other" 1 0)
unfolding run_client
telling_tells same = absurd (
    ground (
      arith,
      eq_iff (slice (telling.hash (bound_text id_a 1 0)) 0 22)
          (slice (telling.hash (bound_text "other" 1 0)) 0 22),
    ))

apart : id_a ≢ "other"
apart same = absurd (ground (arith, eq_iff id_a "other"))

decode_cursor-other_example :
    decode_cursor telling (encode_cursor telling id_a 1 0) "other" ≡ err invalid_cursor
decode_cursor-other_example =
    decode_cursor-other telling id_a "other" 1 0 telling_reads (omega arith) (omega arith)
      telling_tells apart
