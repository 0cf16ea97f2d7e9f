-- ===== src/ProbeParser/Frame.antt =====
-- `parseFrame` of src/core/probe-parser.ts: a header line, one line for each field and an end line. What
-- Node's `Buffer` does with bytes is a parameter.
use enhanced_ssh.Prelude.{
  ℕ, Bool, true, false, not, ◌&&◌, ◌||◌, String, List, [], ◌∷◌, Option, none, some, leb, ltb, ◌==◌,
  if◌then◌else◌, length, codes, all, any, includes, is_alphanumeric, str_eq, has_key, set,
}
use Prim.Native.Char.{Char, code}
use Prim.Native.String.{◌++◌ as append_text, len}
use enhanced_ssh.Result.{Result, ok, err, ◌>>=◌, ◌>>◌, require}
use enhanced_ssh.ProbeParser.Types.{FixedProbeKind, target_info, docker_preflight}
use enhanced_ssh.ProbeParser.Fields.{
  Fields, Pattern, parse_error, is_decimal, is_digit, decimal_value,
}

-- `isUtf8`, `toString("utf8")`, `Buffer.from(text, "base64")` and `toString("base64")`.
pub record Codec : Type 0 where
  pub is_utf8 : List ℕ → Bool
  pub to_text : List ℕ → String
  pub from_base64 : String → List ℕ
  pub to_base64 : List ℕ → String

abbrev pub max_output_bytes : ℕ
max_output_bytes = 131072

abbrev pub max_encoded_field_bytes : ℕ
max_encoded_field_bytes = 24576

abbrev pub max_probe_fields : ℕ
max_probe_fields = 512

abbrev pub output_protocol : String
output_protocol = "agent-ssh-probe-v1"

abbrev pub end_line : String
end_line = "AGENT_SSH_PROBE_END"

abbrev pub kind_text : FixedProbeKind → String
kind_text target_info = "target-info"
kind_text docker_preflight = "docker-preflight"

abbrev is_letter : ℕ → Bool
is_letter c = leb b'a' c && leb c b'z'

-- /^[a-z][A-Za-z0-9]*(?:\.[a-zA-Z0-9]+)*$/ after the first character; `dot` is whether the last one was
-- a dot.
unfoldable pub key_tail : Bool → Pattern
key_tail dot [] = not dot
key_tail dot (c ∷ cs) =
    let rest = key_tail (c == b'.') cs in
    if is_alphanumeric c then rest else c == b'.' && not dot && rest

unfoldable pub is_key : Pattern
is_key [] = false
is_key (c ∷ cs) = is_letter c && key_tail false cs

abbrev is_base64 : ℕ → Bool
is_base64 c = is_alphanumeric c || c == b'+' || c == b'/'

-- /^(?:[A-Za-z0-9+/]{4})*(?:[A-Za-z0-9+/]{2}==|[A-Za-z0-9+/]{3}=)?$/
unfoldable pub is_canonical_base64 : Pattern
is_canonical_base64 [] = true
is_canonical_base64 (a ∷ []) = false
is_canonical_base64 (a ∷ b ∷ []) = false
is_canonical_base64 (a ∷ b ∷ c ∷ []) = false
is_canonical_base64 (a ∷ b ∷ c ∷ d ∷ []) =
    is_base64 a
    && is_base64 b
    && ((is_base64 c && (is_base64 d || d == b'=')) || (c == b'=' && d == b'='))
is_canonical_base64 (a ∷ b ∷ c ∷ d ∷ e ∷ rest) =
    is_base64 a && is_base64 b && is_base64 c && is_base64 d && is_canonical_base64 (e ∷ rest)

-- [\u0000-\u001f\u007f]
abbrev pub is_control : ℕ → Bool
is_control c = leb c 0x1f || c == 0x7f

unfoldable pub decode_canonical_base64 : Codec → String → Result String
decode_canonical_base64 codec encoded = do
  let symbols = codes encoded
  require
      (leb 1 (length symbols)
        && leb (length symbols) max_encoded_field_bytes
        && is_canonical_base64 symbols)
      (parse_error "Probe output contains invalid Base64")
  let decoded = codec.from_base64 encoded
  require (str_eq (codec.to_base64 decoded) encoded && codec.is_utf8 decoded)
      (parse_error "Probe output contains non-canonical or non-UTF-8 data")
  let text = codec.to_text decoded
  require (not (any is_control (codes text)))
      (parse_error "Probe output contains control characters")
  ok text

abbrev begins_newline : String → Bool
begins_newline String.[] = false
begins_newline (String.◌∷◌ c s) = code c == 10

-- /\r(?!\n)/
unfoldable pub has_bare_return : String → Bool
has_bare_return String.[] = false
has_bare_return (String.◌∷◌ c s) = (code c == 13 && not (begins_newline s)) || has_bare_return s

-- raw.replaceAll("\r\n", "\n")
unfoldable pub unify_newlines : String → String
unify_newlines String.[] = ""
unify_newlines (String.◌∷◌ c s) =
    let rest = unify_newlines s in
    if code c == 13 && begins_newline s then rest else String.◌∷◌ c rest

unfoldable pub ends_newline : String → Bool
ends_newline String.[] = false
ends_newline (String.◌∷◌ c String.[]) = code c == 10
ends_newline (String.◌∷◌ c (String.◌∷◌ d s)) = ends_newline (String.◌∷◌ d s)

-- text.slice(0, -1)
unfoldable pub drop_last : String → String
drop_last String.[] = ""
drop_last (String.◌∷◌ c String.[]) = ""
drop_last (String.◌∷◌ c (String.◌∷◌ d s)) = String.◌∷◌ c (drop_last (String.◌∷◌ d s))

abbrev pub extend : Char → List String → List String
extend c [] = String.◌∷◌ c "" ∷ []
extend c (line ∷ rest) = String.◌∷◌ c line ∷ rest

-- text.split("\n")
unfoldable pub split_lines : String → List String
split_lines String.[] = "" ∷ []
split_lines (String.◌∷◌ c s) =
    let rest = split_lines s in if code c == 10 then "" ∷ rest else extend c rest

-- The text before the first character of this code and that after it.
unfoldable pub split_first : ℕ → String → Option (String × String)
split_first mark String.[] = none
split_first mark (String.◌∷◌ c s) =
    let rest : Option (String × String) = elim (split_first mark s) [
      | none ↦ none
      | some (before, after) ↦ some (String.◌∷◌ c before, after)
    ] in
    if code c == mark then some ("", s) else rest

-- The text after a prefix.
unfoldable pub strip_prefix : String → String → Option String
strip_prefix String.[] text = some text
strip_prefix (String.◌∷◌ p prefix) String.[] = none
strip_prefix (String.◌∷◌ p prefix) (String.◌∷◌ c text) =
    let rest = strip_prefix prefix text in if code p == code c then rest else none

abbrev pub target_info_keys : List String
target_info_keys =
    "platform" ∷ "machine.nativeId" ∷ "machine.hostname" ∷ "os.name" ∷ "os.version" ∷ "os.build"
    ∷ "os.kernel" ∷ "os.architecture" ∷ "disk.path" ∷ "disk.totalBytes" ∷ "disk.availableBytes"
    ∷ "docker.installed" ∷ "docker.daemonReachable" ∷ "docker.clientVersion"
    ∷ "docker.serverVersion" ∷ "docker.contextName" ∷ "docker.contextScope" ∷ "compose.installed"
    ∷ "compose.provider" ∷ "compose.version" ∷ []

abbrev pub preflight_keys : List String
preflight_keys =
    "platform" ∷ "docker.installed" ∷ "docker.daemonReachable" ∷ "docker.clientVersion"
    ∷ "docker.serverVersion" ∷ "docker.contextName" ∷ "docker.contextScope" ∷ "compose.installed"
    ∷ "compose.provider" ∷ "compose.version" ∷ "preflight.intent" ∷ "compose.requested"
    ∷ "compose.config" ∷ "ports.count" ∷ "containers.status" ∷ "containers.count"
    ∷ "containers.truncated" ∷ "containers.filter" ∷ "disk.status" ∷ "disk.path" ∷ "disk.totalBytes"
    ∷ "disk.availableBytes" ∷ "disk.requiredBytes" ∷ []

-- prefix, a decimal index, a dot, and one of the names.
unfoldable pub is_indexed_key : String → List String → String → Bool
is_indexed_key prefix names key = elim (strip_prefix prefix key) [
  | none ↦ false
  | some rest ↦ elim (split_first b'.' rest) [
    | none ↦ false
    | some (index, name) ↦ is_decimal (codes index) && includes name names
  ]
]

abbrev port_names : List String
port_names = "protocol" ∷ "port" ∷ "observation" ∷ "ownership" ∷ []

unfoldable pub is_known_key : FixedProbeKind → String → Bool
is_known_key target_info key = includes key target_info_keys
is_known_key docker_preflight key =
    includes key preflight_keys
    || is_indexed_key "port." port_names key
    || is_indexed_key "container." ("record" ∷ []) key

-- A field of a key and its encoded value, or of a line without a colon.
unfoldable pub add_entry : Codec → Fields → Option (String × String) → Result Fields
add_entry codec fields none = err (parse_error "Probe output contains a malformed field")
add_entry codec fields (some (key, encoded)) = do
  require (leb 1 (length (codes key))) (parse_error "Probe output contains a malformed field")
  require (is_key (codes key) && not (has_key key fields))
      (parse_error "Probe output contains an invalid or duplicate key")
  value ← decode_canonical_base64 codec encoded
  ok (set key value fields)

-- The body of the loop over the lines of fields.
unfoldable pub add_field : Codec → Fields → String → Result Fields
add_field codec fields line = do
  require (leb (len line) max_encoded_field_bytes)
      (parse_error "Probe output contains an oversized field")
  add_entry codec fields (split_first b':' line)

unfoldable pub read_fields : Codec → List String → Fields → Result Fields
read_fields codec [] fields = ok fields
read_fields codec (line ∷ rest) fields = do
  more ← add_field codec fields line
  read_fields codec rest more

-- lines.at(-1)
abbrev pub last_line : String → List String → String
last_line line [] = line
last_line line (next ∷ rest) = last_line next rest

-- Without the last line.
abbrev pub front_lines : List String → List String
front_lines [] = []
front_lines (line ∷ []) = []
front_lines (line ∷ next ∷ rest) = line ∷ front_lines (next ∷ rest)

abbrev pub known_keys : FixedProbeKind → Fields → Bool
known_keys kind fields = all (λ (entry : String × String). is_known_key kind entry.0) fields

-- The lines between the header and the end, if these are as expected.
unfoldable pub frame_body : FixedProbeKind → List String → Result (List String)
frame_body kind [] = err (parse_error "Probe output has an invalid frame boundary")
frame_body kind (header ∷ rest) = do
  require
      (str_eq header (append_text output_protocol (append_text "\t" (kind_text kind)))
        && str_eq (last_line header rest) end_line)
      (parse_error "Probe output has an invalid frame boundary")
  ok (front_lines rest)

unfoldable pub parse_lines : Codec → FixedProbeKind → List String → Result Fields
parse_lines codec kind lines = do
  body ← frame_body kind lines
  require (leb 1 (length body) && leb (length body) max_probe_fields)
      (parse_error "Probe output has an invalid field count")
  fields ← read_fields codec body []
  require (known_keys kind fields) (parse_error "Probe output contains an unknown field")
  ok fields

unfoldable pub parse_frame : Codec → FixedProbeKind → List ℕ → Result Fields
parse_frame codec kind output = do
  require (leb 1 (length output) && leb (length output) max_output_bytes)
      (parse_error "Probe output is empty or exceeds its byte limit")
  require (codec.is_utf8 output) (parse_error "Probe output is not valid UTF-8")
  let raw = codec.to_text output
  require (not (has_bare_return raw)) (parse_error "Probe output contains a bare carriage return")
  let normalized = unify_newlines raw
  require (ends_newline normalized) (parse_error "Probe output is incomplete")
  parse_lines codec kind (split_lines (drop_last normalized))

-- Every key `prefix<digits>.` has an index below the count: /^port\.(\d+)\./ and its like.
unfoldable pub index_fits : String → ℕ → String → Bool
index_fits prefix count key = elim (strip_prefix prefix key) [
  | none ↦ true
  | some rest ↦ elim (split_first b'.' rest) [
    | none ↦ true
    | some (index, name) ↦
        not (leb 1 (length (codes index)) && all is_digit (codes index))
        || ltb (decimal_value 0 (codes index)) count
  ]
]

unfoldable pub assert_dynamic_indexes : Fields → String → ℕ → String → Result (Unit {0})
assert_dynamic_indexes fields prefix count label =
    require (all (λ (entry : String × String). index_fits prefix count entry.0) fields)
      (parse_error (append_text "Probe returned an out-of-range " (append_text label " index")))
