-- ===== src/TaskStore/CursorLaws.antt =====
-- Cursors that are given out and read back.
use Prim.Native.String.{◌++◌ as append_text, slice}
use text.Mathlib.TextLemmas.{append_cancel_left, append_cancel_right}
use enhanced_ssh.Prelude.{
  ℕ, ◌≤◌, true, String, some, ◌≡◌, ◌≢◌, false, refl, ◌∙◌, ap, arith, leb, le→leb, str_eq, eq_iff,
  get, Bool-cases, inl, inr,
}
use enhanced_ssh.Result.{ok, err}
use enhanced_ssh.RollingLog.{max_safe_integer, invalid_cursor}
use enhanced_ssh.RemoteCommand.Validate.{is_before, same_text}
use enhanced_ssh.RemoteCommand.Render.{join_with}
use enhanced_ssh.TaskStore.Cursor.{
  CursorCodec, offset_text, task_cursor_binding, cursor_json, encode_cursor, insert_key,
  sorted_keys, has_cursor_keys, safe_offset, cursor_of, read_cursor, check_binding, decode_cursor,
}

-- The cursor of a run at these offsets, printed as JSON, is read back as the value printed.
abbrev pub ReadsBack : CursorCodec → String → ℕ → ℕ → Type 0
ReadsBack codec run_id o e =
    codec.parse_json (encode_cursor codec run_id o e) ≡ some (cursor_json codec run_id o e)

str_eq_refl : (s : String) → str_eq s s ≡ true
str_eq_refl s = ground (arith, eq_iff s s)

read_cursor-cursor_json :
    (codec : CursorCodec) (run_id : String) (o e : ℕ)
    → leb o max_safe_integer ≡ true
    → leb e max_safe_integer ≡ true
    → read_cursor (some (cursor_json codec run_id o e))
      ≡ some (record { o = o; e = e; b = task_cursor_binding codec run_id o e })
unfolding read_cursor cursor_json cursor_of has_cursor_keys sorted_keys insert_key safe_offset get
    is_before same_text join_with
read_cursor-cursor_json codec run_id o e safe_o safe_e = rw (safe_o, safe_e) refl

-- When JSON reads back the cursor that it printed, a cursor that was given out for a run is accepted for that run,
-- with the very offsets that it was given out for.
pub decode_cursor-encode_cursor :
    (codec : CursorCodec) (run_id : String) (o e : ℕ)
    → ReadsBack codec run_id o e
    → o ≤ max_safe_integer
    → e ≤ max_safe_integer
    → decode_cursor codec (encode_cursor codec run_id o e) run_id
      ≡ ok (record { o = o; e = e; b = task_cursor_binding codec run_id o e })
unfolding decode_cursor check_binding
decode_cursor-encode_cursor codec run_id o e reads_back safe_o safe_e =
    ap (λ j. check_binding codec run_id (read_cursor j)) reads_back
    ∙ ap (check_binding codec run_id) (
        read_cursor-cursor_json codec run_id o e (le→leb o max_safe_integer safe_o)
          (le→leb e max_safe_integer safe_e))
    ∙ rw (str_eq_refl (task_cursor_binding codec run_id o e)) refl

-- What a cursor is bound to: a tag, the run id and both offsets, with a NUL between them.
abbrev pub bound_text : String → ℕ → ℕ → String
bound_text run_id o e = append_text "agent-ssh-task-cursor-v2\0" (
    append_text run_id
      (append_text "\0" (append_text (offset_text o) (append_text "\0" (offset_text e)))))

-- The first 22 characters of the hash tell these two texts apart.
abbrev pub NoCollision : CursorCodec → String → String → Type 0
NoCollision codec x y = slice (codec.hash x) 0 22 ≡ slice (codec.hash y) 0 22 → x ≡ y

-- The run id can be told from the bound text.
bound_text-injective :
    (run_id other : String) (o e : ℕ)
    → bound_text run_id o e ≡ bound_text other o e
    → run_id ≡ other
bound_text-injective run_id other o e same =
    append_cancel_right run_id other _ (append_cancel_left "agent-ssh-task-cursor-v2\0" _ _ same)

bindings-apart :
    (codec : CursorCodec) (run_id other : String) (o e : ℕ)
    → NoCollision codec (bound_text run_id o e) (bound_text other o e)
    → run_id ≢ other
    → str_eq (task_cursor_binding codec run_id o e) (task_cursor_binding codec other o e) ≡ false
unfolding task_cursor_binding
bindings-apart codec run_id other o e distinct apart =
    elim (Bool-cases
      (str_eq (task_cursor_binding codec run_id o e) (task_cursor_binding codec other o e))) [
        | inr differ ↦ differ
        | inl same ↦ absurd (
            apart (
              bound_text-injective run_id other o e (
                distinct (
                  (eq_iff (task_cursor_binding codec run_id o e)
                      (task_cursor_binding codec other o e)).0
                    same))))
      ]

-- A cursor is good for its own run only: when JSON reads back the cursor that it printed, and the hash
-- does not take the texts of the two runs for one another, a cursor that was given out for one run is
-- refused for another.
pub decode_cursor-other :
    (codec : CursorCodec) (run_id other : String) (o e : ℕ)
    → ReadsBack codec run_id o e
    → o ≤ max_safe_integer
    → e ≤ max_safe_integer
    → NoCollision codec (bound_text run_id o e) (bound_text other o e)
    → run_id ≢ other
    → decode_cursor codec (encode_cursor codec run_id o e) other ≡ err invalid_cursor
unfolding decode_cursor check_binding
decode_cursor-other codec run_id other o e reads_back safe_o safe_e distinct apart =
    ap (λ j. check_binding codec other (read_cursor j)) reads_back
    ∙ ap (check_binding codec other) (
        read_cursor-cursor_json codec run_id o e (le→leb o max_safe_integer safe_o)
          (le→leb e max_safe_integer safe_e))
    ∙ rw (bindings-apart codec run_id other o e distinct apart) refl
