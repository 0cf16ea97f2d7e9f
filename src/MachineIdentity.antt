-- ===== src/MachineIdentity.antt =====
-- src/core/machine-identity.ts: the identifier of a machine, derived from what a probe reads on it. The
-- key file is not modelled; HMAC-SHA-256 in base64url and `toLowerCase` are parameters.
pub mod Probed
mod Tests
use enhanced_ssh.Prelude.{
  ℕ, Bool, true, false, not, ◌&&◌, ◌||◌, String, List, Option, none, some, leb, ◌==◌, length, codes,
}
use Prim.Native.String.{◌++◌ as append_text}
use enhanced_ssh.Errors.{range_error, other_error}
use enhanced_ssh.Result.{Result, ok, err, ◌>>=◌, ◌>>◌, require}
use enhanced_ssh.ProbeParser.Types.{FixedProbePlatform, windows, linux, macos}
use enhanced_ssh.ProbeParser.Fields.{Pattern, is_digit}
use enhanced_ssh.ProbeParser.Facts.{has_shape, shape_of, is_zero_id}

abbrev pub machine_identity_key_bytes : ℕ
machine_identity_key_bytes = 32

abbrev pub machine_id_prefix : String
machine_id_prefix = "mid_"

abbrev pub machine_id_hmac_context : String
machine_id_hmac_context = "agent-ssh-machine-id-v1\0"

-- [0-9a-f]
abbrev pub is_lower_hex : ℕ → Bool
is_lower_hex c = is_digit c || (leb b'a' c && leb c b'f')

-- The two shapes in lower case, and not a zero.
unfoldable pub is_normal_id : FixedProbePlatform → Pattern
is_normal_id platform value =
    has_shape is_lower_hex (shape_of platform) value && not (is_zero_id true value)

unfoldable pub normalize_native_machine_id :
    (String → String) → FixedProbePlatform → String → Result String
normalize_native_machine_id lower platform native_machine_id = do
  let normalized = lower native_machine_id
  require (is_normal_id platform (codes normalized))
      (other_error "Remote platform returned an invalid native machine identifier")
  ok normalized

abbrev pub platform_name : FixedProbePlatform → String
platform_name windows = "windows"
platform_name linux = "linux"
platform_name macos = "macos"

-- `hmac` is of a key and a text.
unfoldable pub derive_machine_id :
    (List ℕ → String → String)
    → (String → String)
    → List ℕ
    → FixedProbePlatform
    → String
    → Result String
derive_machine_id hmac lower key platform native_machine_id = do
  require (length key == machine_identity_key_bytes)
      (range_error "Machine identity key must contain exactly 32 bytes")
  normalized ← normalize_native_machine_id lower platform native_machine_id
  ok (
      append_text machine_id_prefix (
        hmac key (
          append_text machine_id_hmac_context
            (append_text (platform_name platform) (append_text "\0" normalized)))))

-- `#key`, which is gone once the store is closed.
pub record MachineIdentityKeyStore : Type 0 where
  pub key : Option (List ℕ)

unfoldable pub derive :
    (List ℕ → String → String)
    → (String → String)
    → MachineIdentityKeyStore
    → FixedProbePlatform
    → String
    → Result String
derive hmac lower store platform native_machine_id = elim store.key [
  | none ↦ err (other_error "Machine identity key store is closed")
  | some key ↦ derive_machine_id hmac lower key platform native_machine_id
]

unfoldable pub close : MachineIdentityKeyStore → MachineIdentityKeyStore
close store = record { key = none }
