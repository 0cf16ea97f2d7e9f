-- ===== src/Redact.antt =====
-- src/infra/redact.ts: the copy of a value that is fit for a log. Objects and arrays have an identity,
-- by which they stand in a heap, since a value may hold itself. What the regular expressions of
-- `redactText` replace is a parameter, as is JavaScript's `toLowerCase`.
pub mod Walk
pub mod Bounds
pub mod Secrecy
mod Tests
use enhanced_ssh.Prelude.{
  ℕ, ◌-◌, Bool, true, false, not, ◌&&◌, ◌||◌, String, List, [], ◌∷◌, leb, if◌then◌else◌, ◌==◌,
  length, drop, codes, any, map,
}
use enhanced_ssh.RemoteCommand.Validate.{Text, same_text}

abbrev pub redacted : String
redacted = "[REDACTED]"

abbrev pub redacted_binary : String
redacted_binary = "[REDACTED BINARY]"

abbrev pub redacted_circular : String
redacted_circular = "[CIRCULAR]"

abbrev pub redacted_truncated : String
redacted_truncated = "[TRUNCATED]"

abbrev pub safe_derived_keys : List String
safe_derived_keys = "commandbytes" ∷ "commandsha256" ∷ "stderrbytes" ∷ "stdoutbytes" ∷ []

abbrev pub sensitive_keys : List String
sensitive_keys =
    "apikey" ∷ "argv" ∷ "authorization" ∷ "cmd" ∷ "command" ∷ "configfile" ∷ "cookie" ∷ "credential"
    ∷ "credentials" ∷ "cwd" ∷ "directory" ∷ "error" ∷ "errormessage" ∷ "executable" ∷ "filepath"
    ∷ "knownhostsfile" ∷ "mfa" ∷ "otp" ∷ "output" ∷ "outputexpiresat" ∷ "outputref" ∷ "passphrase"
    ∷ "passwd" ∷ "password" ∷ "path" ∷ "privatekey" ∷ "pwd" ∷ "ref" ∷ "reference" ∷ "secret"
    ∷ "sessionid" ∷ "stderr" ∷ "stdout" ∷ "token" ∷ []

abbrev pub sensitive_suffixes : List String
sensitive_suffixes =
    "apikey" ∷ "authorization" ∷ "cookie" ∷ "credential" ∷ "error" ∷ "message" ∷ "passphrase"
    ∷ "password" ∷ "path" ∷ "privatekey" ∷ "ref" ∷ "secret" ∷ "stderr" ∷ "stdout" ∷ "token" ∷ []

-- [a-z0-9]
abbrev pub is_key_character : ℕ → Bool
is_key_character c = (leb b'a' c && leb c b'z') || (leb b'0' c && leb c b'9')

-- .replace(/[^a-z0-9]/g, "")
unfoldable pub keep_key_characters : Text → Text
keep_key_characters [] = []
keep_key_characters (c ∷ cs) =
    let rest = keep_key_characters cs in if is_key_character c then c ∷ rest else rest

unfoldable pub normalize_key : (String → String) → String → Text
normalize_key lower key = keep_key_characters (codes (lower key))

abbrev pub has_text : Text → List String → Bool
has_text text texts = any (λ other. same_text (codes other) text) texts

-- text.endsWith(suffix)
unfoldable pub ends_with : Text → String → Bool
ends_with text suffix = same_text (drop (length text - length (codes suffix)) text) (codes suffix)

unfoldable pub is_sensitive_key : (String → String) → String → Bool
is_sensitive_key lower key =
    let normalized = normalize_key lower key in
    if has_text normalized safe_derived_keys
    then false
    else has_text normalized sensitive_keys
      || any (λ suffix. ends_with normalized suffix) sensitive_suffixes
      || ends_with normalized "command"
