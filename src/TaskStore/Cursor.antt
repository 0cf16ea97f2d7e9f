-- ===== src/TaskStore/Cursor.antt =====
-- The cursors of src/core/task-store.ts: offsets into both streams of a task, bound to the task. JSON,
-- base64url and SHA-256 are Node's and are a parameter.
use enhanced_ssh.Prelude.{
  ℕ, Bool, false, ◌&&◌, String, List, [], ◌∷◌, Option, none, some, leb, ◌==◌, if◌then◌else◌, codes,
  str_eq, get,
}
use Prim.Native.String.{◌++◌ as append_text, slice}
use enhanced_ssh.Result.{Result, ok, err}
use enhanced_ssh.RollingLog.{max_safe_integer, invalid_cursor}
use enhanced_ssh.ProbeParser.Fields.{decimal_digits}
use enhanced_ssh.RemoteCommand.Validate.{Text, is_before, same_text}
use enhanced_ssh.RemoteCommand.Render.{join_with}

-- A member of a JSON object: a natural number, a string, or any other value.
pub data Member : Type 0 where
  number : ℕ → Member
  string : String → Member
  other_member : Member

-- A JSON value, as far as it is looked at: an object, or null, an array or a value that is no object.
pub data Json : Type 0 where
  object : List (String × Member) → Json
  other_json : Json

-- `print_json` is base64url of JSON.stringify, and `parse_json` is JSON.parse of the decoded text, none
-- where that throws. `hash` is SHA-256 of a text in base64url.
pub record CursorCodec : Type 0 where
  pub print_json : Json → String
  pub parse_json : String → Option Json
  pub hash : String → String

-- The version is always 2.
pub record TaskCursor : Type 0 where
  pub o : ℕ
  pub e : ℕ
  pub b : String

-- String(offset); a safe integer has at most sixteen digits.
unfoldable pub offset_text : ℕ → String
offset_text n = decimal_digits 16 n

unfoldable pub task_cursor_binding : CursorCodec → String → ℕ → ℕ → String
task_cursor_binding codec run_id stdout_offset stderr_offset =
    slice
      (codec.hash (
        append_text "agent-ssh-task-cursor-v2\0" (
          append_text run_id (
            append_text "\0" (
              append_text (offset_text stdout_offset)
                (append_text "\0" (offset_text stderr_offset)))))))
      0 22

unfoldable pub cursor_json : CursorCodec → String → ℕ → ℕ → Json
cursor_json codec run_id stdout_offset stderr_offset = object (
    ("v", number 2)
    ∷ ("o", number stdout_offset)
    ∷ ("e", number stderr_offset)
    ∷ ("b", string (task_cursor_binding codec run_id stdout_offset stderr_offset))
    ∷ [])

unfoldable pub encode_cursor : CursorCodec → String → ℕ → ℕ → String
encode_cursor codec run_id stdout_offset stderr_offset =
    codec.print_json (cursor_json codec run_id stdout_offset stderr_offset)

unfoldable pub insert_key : Text → List Text → List Text
insert_key key [] = key ∷ []
insert_key key (other ∷ rest) =
    let later = insert_key key rest in
    if is_before other key then other ∷ later else key ∷ other ∷ rest

-- Object.keys(parsed).sort()
unfoldable pub sorted_keys : List (String × Member) → List Text
sorted_keys [] = []
sorted_keys ((key, value) ∷ rest) = insert_key (codes key) (sorted_keys rest)

-- === "b,e,o,v"
unfoldable pub has_cursor_keys : List (String × Member) → Bool
has_cursor_keys entries = same_text (join_with (codes ",") (sorted_keys entries)) (codes "b,e,o,v")

-- A safe integer from 0.
unfoldable pub safe_offset : Option Member → Option ℕ
safe_offset (some (number n)) = if leb n max_safe_integer then some n else none
safe_offset (some (string s)) = none
safe_offset (some other_member) = none
safe_offset none = none

abbrev pub is_version : Option Member → Bool
is_version (some (number n)) = n == 2
is_version (some (string s)) = false
is_version (some other_member) = false
is_version none = false

abbrev pub string_of : Option Member → Option String
string_of (some (string s)) = some s
string_of (some (number n)) = none
string_of (some other_member) = none
string_of none = none

-- The values under the four keys.
unfoldable pub cursor_of : List (String × Member) → Option TaskCursor
cursor_of entries =
    let offsets : Option TaskCursor = elim (safe_offset (get "o" entries)) [
      | none ↦ none
      | some o ↦ elim (safe_offset (get "e" entries)) [
        | none ↦ none
        | some e ↦ elim (string_of (get "b" entries)) [
          | none ↦ none
          | some b ↦ some (record { o = o; e = e; b = b })
        ]
      ]
    ] in
    if has_cursor_keys entries && is_version (get "v" entries) then offsets else none

unfoldable pub read_cursor : Option Json → Option TaskCursor
read_cursor (some (object entries)) = cursor_of entries
read_cursor (some other_json) = none
read_cursor none = none

-- The comparison with the binding.
unfoldable pub check_binding : CursorCodec → String → Option TaskCursor → Result TaskCursor
check_binding codec run_id none = err invalid_cursor
check_binding codec run_id (some cursor) =
    if str_eq cursor.b (task_cursor_binding codec run_id cursor.o cursor.e)
    then ok cursor
    else err invalid_cursor

unfoldable pub decode_cursor : CursorCodec → String → String → Result TaskCursor
decode_cursor codec value run_id = check_binding codec run_id (read_cursor (codec.parse_json value))
