-- ===== src/RemoteCommand/Validate.antt =====
-- `validateStructuredInput` and `validateEnvironment` of src/core/remote-command.ts. A text is the list
-- of its code points.
use enhanced_ssh.Prelude.{
  ℕ, ◌+◌, Bool, true, false, not, ◌&&◌, ◌||◌, String, List, [], ◌∷◌, Option, none, some, ltb, leb,
  ◌==◌, if◌then◌else◌, length, all, any, is_alphanumeric,
}
use enhanced_ssh.Errors.{Failure, gateway, gateway_error, invalid_params, Detail, text, number}
use enhanced_ssh.Result.{Result, ok, ◌>>=◌, ◌>>◌, require}
use enhanced_ssh.TargetRegistry.Types.{TargetPlatform, windows, linux, macos}
use enhanced_ssh.TargetRegistry.Authorize.{max_command_bytes}
use enhanced_ssh.TransferPaths.{byte_length}

abbrev pub Text : Type 0
Text = List ℕ

abbrev pub Environment : Type 0
Environment = List (Text × Text)

-- What JavaScript does with texts: `toLowerCase`, `trim().length === 0`, and the base64 of a text's
-- UTF-8 bytes.
pub record Texts : Type 0 where
  pub lower : Text → Text
  pub is_blank : Text → Bool
  pub to_base64 : Text → Text

pub data StructuredRemoteShell : Type 0 where
  powershell cmd bash : StructuredRemoteShell

-- The encoding, of which utf-8 is the only one, has no field.
pub record StructuredRemoteCommandInput : Type 0 where
  pub shell : StructuredRemoteShell
  pub script : Text
  pub cwd : Option Text
  pub env : Option Environment

abbrev pub max_environment_entries : ℕ
max_environment_entries = 64

abbrev pub invalid_structured_command : String → Option (List (String × Detail)) → Failure
invalid_structured_command message details = gateway (gateway_error invalid_params message details)

abbrev pub is_name_start : ℕ → Bool
is_name_start c = (leb b'A' c && leb c b'Z') || (leb b'a' c && leb c b'z') || c == b'_'

-- /^[A-Za-z_][A-Za-z0-9_]{0,127}$/
unfoldable pub is_environment_name : Text → Bool
is_environment_name [] = false
is_environment_name (c ∷ cs) =
    is_name_start c && all (λ d. is_alphanumeric d || d == b'_') cs && leb (length cs) 127

unfoldable pub same_text : Text → Text → Bool
same_text [] [] = true
same_text [] (d ∷ ds) = false
same_text (c ∷ cs) [] = false
same_text (c ∷ cs) (d ∷ ds) = c == d && same_text cs ds

abbrev pub is_name_seen : Text → List Text → Bool
is_name_seen name names = any (λ other. same_text other name) names

-- value.includes("\0")
abbrev pub has_nul : Text → Bool
has_nul value = any (λ c. c == 0) value

-- The name under which two variables are the same one.
abbrev pub normalized_name : Texts → Bool → Text → Text
normalized_name texts ignore_case name = if ignore_case then texts.lower name else name

-- The loop over the entries; `names` are the normalized names so far.
unfoldable pub check_entries : Texts → Bool → Environment → List Text → Result (Unit {0})
check_entries texts ignore_case [] names = ok tt
check_entries texts ignore_case ((name, value) ∷ entries) names = do
  require
      (is_environment_name name
        && not (is_name_seen (normalized_name texts ignore_case name) names)
        && not (has_nul value))
      (invalid_structured_command "Remote environment is invalid" none)
  check_entries texts ignore_case entries (normalized_name texts ignore_case name ∷ names)

-- left < right, of texts whose characters are ASCII.
unfoldable pub is_before : Text → Text → Bool
is_before [] [] = false
is_before [] (d ∷ ds) = true
is_before (c ∷ cs) [] = false
is_before (c ∷ cs) (d ∷ ds) = let rest = is_before cs ds in ltb c d || (c == d && rest)

unfoldable pub insert_entry : Text × Text → Environment → Environment
insert_entry entry [] = entry ∷ []
insert_entry entry (other ∷ rest) =
    let later = insert_entry entry rest in
    if is_before other.0 entry.0 then other ∷ later else entry ∷ other ∷ rest

unfoldable pub sort_entries : Environment → Environment
sort_entries [] = []
sort_entries (entry ∷ rest) = insert_entry entry (sort_entries rest)

unfoldable pub validate_environment : Texts → Option Environment → Bool → Result Environment
validate_environment texts none ignore_case = ok []
validate_environment texts (some entries) ignore_case = do
  require (leb (length entries) max_environment_entries) (
      invalid_structured_command "Remote environment has too many entries"
        (some (("maximumEnvironmentEntries", number max_environment_entries) ∷ [])))
  check_entries texts ignore_case entries []
  ok (sort_entries entries)

abbrev pub is_supported : TargetPlatform → StructuredRemoteShell → Bool
is_supported windows powershell = true
is_supported windows cmd = true
is_supported windows bash = false
is_supported linux bash = true
is_supported linux powershell = false
is_supported linux cmd = false
is_supported macos bash = true
is_supported macos powershell = false
is_supported macos cmd = false

abbrev pub is_bash : StructuredRemoteShell → Bool
is_bash bash = true
is_bash powershell = false
is_bash cmd = false

abbrev pub platform_text : TargetPlatform → String
platform_text windows = "windows"
platform_text linux = "linux"
platform_text macos = "macos"

abbrev pub shell_text : StructuredRemoteShell → String
shell_text powershell = "powershell"
shell_text cmd = "cmd"
shell_text bash = "bash"

-- A working directory that is given is not blank and has no NUL and no line break.
unfoldable pub cwd_fits : Texts → Option Text → Bool
cwd_fits texts none = true
cwd_fits texts (some cwd) =
    not (texts.is_blank cwd) && not (any (λ c. c == 0 || c == 13 || c == 10) cwd)

abbrev pub cwd_bytes : Option Text → ℕ
cwd_bytes none = 0
cwd_bytes (some cwd) = byte_length cwd

unfoldable pub environment_bytes : Environment → ℕ
environment_bytes [] = 0
environment_bytes ((name, value) ∷ rest) =
    byte_length name + byte_length value + environment_bytes rest

unfoldable pub payload_bytes : StructuredRemoteCommandInput → Environment → ℕ
payload_bytes input environment =
    byte_length input.script + cwd_bytes input.cwd + environment_bytes environment

unfoldable pub validate_structured_input :
    Texts → TargetPlatform → StructuredRemoteCommandInput → Result Environment
validate_structured_input texts platform input = do
  require (is_supported platform input.shell) (
      invalid_structured_command "Shell is not supported for the target platform" (
        some (
          ("platform", text (platform_text platform))
          ∷ ("shell", text (shell_text input.shell))
          ∷ [])))
  require (not (texts.is_blank input.script) && not (has_nul input.script))
      (invalid_structured_command "Structured script is invalid" none)
  require (cwd_fits texts input.cwd)
      (invalid_structured_command "Remote working directory is invalid" none)
  environment ← validate_environment texts input.env (not (is_bash input.shell))
  require (leb (payload_bytes input environment) max_command_bytes) (
      invalid_structured_command "Structured command payload is too large"
        (some (("maximumPayloadBytes", number max_command_bytes) ∷ [])))
  ok environment
