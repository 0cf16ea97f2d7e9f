-- ===== src/TransferPaths/Windows.antt =====
-- The Windows branch of `normalizeRemoteTransferPath` in src/core/transfer-paths.ts. For the names of
-- devices the upper case of ASCII is enough: no other character has one of their letters for it.
use enhanced_ssh.Prelude.{
  ℕ, ◌-◌, Bool, true, false, not, ◌&&◌, ◌||◌, List, [], ◌∷◌, Option, none, some, ◌≡◌, refl, sym,
  ◌∙◌, ap, arith, leb, ◌==◌, if◌then◌else◌, all, any, map, codes,
}
use enhanced_ssh.Result.{Result, ok, err, ◌>>◌, require, require-ok, then-ok, ok-injective}
use enhanced_ssh.RemoteCommand.Validate.{Text, same_text}
use enhanced_ssh.TransferPaths.{invalid_path, validate_path_text, segments, is_traversal, render}
use enhanced_ssh.TransferPaths.Segments.{segments-render, segments-segment}

abbrev pub is_separator : ℕ → Bool
is_separator c = c == b'\\' || c == b'/'

-- The code points that end a line for a regular expression, and are no control characters.
abbrev pub is_line_separator : ℕ → Bool
is_line_separator c = c == 0x2028 || c == 0x2029

abbrev pub is_drive_letter : ℕ → Bool
is_drive_letter c = (leb b'A' c && leb c b'Z') || (leb b'a' c && leb c b'z')

abbrev pub upper_character : ℕ → ℕ
upper_character c = if leb b'a' c && leb c b'z' then c - 32 else c

abbrev pub slash_of : ℕ → ℕ
slash_of c = if c == b'\\' then b'/' else c

-- value.startsWith("\\\\") || value.startsWith("//"), which covers the two device prefixes.
unfoldable pub is_network_path : Text → Bool
is_network_path [] = false
is_network_path (c ∷ []) = false
is_network_path (c ∷ d ∷ rest) = (c == b'\\' && d == b'\\') || (c == b'/' && d == b'/')

-- /^([A-Za-z]):[\\/](.*)$/u
unfoldable pub drive_of : Text → Option (ℕ × Text)
drive_of [] = none
drive_of (c ∷ []) = none
drive_of (c ∷ colon ∷ []) = none
drive_of (c ∷ colon ∷ s ∷ rest) =
    if is_drive_letter c && colon == b':' && is_separator s && not (any is_line_separator rest)
    then some (c, rest)
    else none

-- segment.split(".", 1)[0]
unfoldable pub before_dot : Text → Text
before_dot [] = []
before_dot (c ∷ cs) = let rest = before_dot cs in if c == b'.' then [] else c ∷ rest

unfoldable pub ends_badly : Text → Bool
ends_badly [] = false
ends_badly (c ∷ []) = c == b'.' || c == b' '
ends_badly (c ∷ d ∷ cs) = ends_badly (d ∷ cs)

abbrev pub is_port_digit : ℕ → Bool
is_port_digit c = leb b'1' c && leb c b'9'

-- /^(?:CON|PRN|AUX|NUL|COM[1-9]|LPT[1-9])$/
unfoldable pub is_device_name : Text → Bool
is_device_name [] = false
is_device_name (a ∷ []) = false
is_device_name (a ∷ b ∷ []) = false
is_device_name (a ∷ b ∷ c ∷ []) =
    any (λ name. same_text (codes name) (a ∷ b ∷ c ∷ [])) ("CON" ∷ "PRN" ∷ "AUX" ∷ "NUL" ∷ [])
is_device_name (a ∷ b ∷ c ∷ d ∷ []) =
    is_port_digit d && any (λ name. same_text (codes name) (a ∷ b ∷ c ∷ [])) ("COM" ∷ "LPT" ∷ [])
is_device_name (a ∷ b ∷ c ∷ d ∷ e ∷ rest) = false

-- [<>:"|?*]
abbrev pub is_forbidden : ℕ → Bool
is_forbidden c =
    c == b'<' || c == b'>' || c == b':' || c == b'"' || c == b'|' || c == b'?' || c == b'*'

unfoldable pub validate_windows_segment : Text → Result (Unit {0})
validate_windows_segment segment = do
  require (not (any is_forbidden segment || ends_badly segment))
      (invalid_path "Windows path contains an invalid segment")
  require (not (is_device_name (map upper_character (before_dot segment))))
      (invalid_path "Windows path contains a reserved device name")
  ok tt

-- The loop over the segments.
unfoldable pub check_segments : List Text → Result (Unit {0})
check_segments [] = ok tt
check_segments (segment ∷ rest) = do
  require (not (is_traversal segment))
      (invalid_path "Remote path must not contain traversal segments")
  validate_windows_segment segment
  check_segments rest

-- The path on a drive. The text is split at both separators, and `render` begins with a slash.
unfoldable pub normalize_on_drive : Option (ℕ × Text) → Result Text
normalize_on_drive none = err (invalid_path "Remote Windows paths must be drive-absolute")
normalize_on_drive (some (drive, rest)) = do
  let parts = segments (map slash_of rest)
  check_segments parts
  ok (upper_character drive ∷ b':' ∷ render parts)

-- normalizeRemoteTransferPath for windows.
unfoldable pub normalize_windows_path : Text → Result Text
normalize_windows_path value = do
  validate_path_text value
  require (not (is_network_path value))
      (invalid_path "Remote Windows paths must not use UNC or device syntax")
  normalize_on_drive (drive_of value)

-- A segment that Windows takes for a plain name.
abbrev pub is_plain_name : Text → Bool
is_plain_name segment =
    not (is_traversal segment)
    && (not (any is_forbidden segment || ends_badly segment)
        && not (is_device_name (map upper_character (before_dot segment))))

check_segments-plain :
    (parts : List Text) → check_segments parts ≡ ok tt → all is_plain_name parts ≡ true
unfolding check_segments validate_windows_segment
check_segments-plain [] e = refl
check_segments-plain (segment ∷ rest) e =
    let (straight, s1) = require-ok (not (is_traversal segment)) _ _ e in
    let (valid, s2) = then-ok (validate_windows_segment segment) _ s1 in
    let (clean, s3) = require-ok (not (any is_forbidden segment || ends_badly segment)) _ _ valid in
    let (no_device, s4) =
      require-ok (not (is_device_name (map upper_character (before_dot segment)))) _ _ s3 in
    ground (arith, check_segments-plain rest s2)

-- What a normalised Windows path is: a drive, and the segments of the path that was given.
pub record OnDrive (value normal : Text) : Type 0 where
  pub letter : ℕ
  pub rest : Text
  pub tail : Text
  pub given : drive_of value ≡ some (letter, rest)
  pub normal_is : normal ≡ upper_character letter ∷ b':' ∷ tail
  pub same_segments : segments tail ≡ segments (map slash_of rest)
  pub plain : all is_plain_name (segments tail) ≡ true

-- A Windows path that is accepted names a drive, which stays its drive, and keeps its segments: each is
-- a plain name, so no traversal, no stream or wildcard character, no dot or blank at its end and no
-- reserved device.
pub normalize_windows_path-OnDrive :
    (value normal : Text) → normalize_windows_path value ≡ ok normal → OnDrive value normal
unfolding normalize_windows_path normalize_on_drive
normalize_windows_path-OnDrive value normal e =
    let (valid, s1) = then-ok (validate_path_text value) _ e in
    let (no_network, s2) = require-ok (not (is_network_path value)) _ _ s1 in
    on_drive (drive_of value) refl s2
  where
    on_drive :
        (found : Option (ℕ × Text))
        → drive_of value ≡ found
        → normalize_on_drive found ≡ ok normal
        → OnDrive value normal
    on_drive none there e = absurd (ground arith)
    on_drive (some (letter, rest)) there e =
        let parts = segments (map slash_of rest) in
        let (checked, done) = then-ok (check_segments parts) _ e in
        let kept = segments-render parts (segments-segment (map slash_of rest)) in
        record {
          letter = letter;
          rest = rest;
          tail = render parts;
          given = there;
          normal_is = sym (ok-injective done);
          same_segments = kept;
          plain = ap (all is_plain_name) kept ∙ check_segments-plain parts checked;
        }
