-- ===== src/MachineIdentity/Probed.antt =====
-- What a probe reads of a machine is what an identifier can be derived from.
use enhanced_ssh.Prelude.{
  ℕ, ◌+◌, Bool, true, false, not, ◌&&◌, ◌||◌, String, List, [], ◌∷◌, Option, none, some, ◌≡◌, refl,
  sym, ◌∙◌, ap, subst, arith, leb, ◌==◌, ==_iff, if◌then◌else◌, length, codes, map, Bool-cases, inl,
  inr,
}
use enhanced_ssh.Result.{ok, bind-ok, require-ok, ok-injective, is_ok}
use enhanced_ssh.ProbeParser.Types.{
  FixedProbePlatform, windows, linux, macos, TargetInfoProbeResult,
}
use enhanced_ssh.ProbeParser.Fields.{Fields, optional_text, required_enum, no_pattern}
use enhanced_ssh.ProbeParser.Facts.{
  is_hex, has_shape, shape_of, is_zero_id, is_native_machine_id, platforms, parse_target_info,
  native_id_fits, hostname_pattern, read_operating_system, read_complete_disk, read_docker_facts,
}
use enhanced_ssh.MachineIdentity.{
  is_lower_hex, is_normal_id, normalize_native_machine_id, derive_machine_id, derive,
}

-- The lower case of an ASCII character.
abbrev pub lower_character : ℕ → ℕ
lower_character c = if leb b'A' c && leb c b'Z' then c + 32 else c

-- A text is put into lower case character by character.
abbrev pub LowersAscii : (String → String) → String → Type 0
LowersAscii lower value = codes (lower value) ≡ map lower_character (codes value)

lower_hex : (c : ℕ) → is_hex c ≡ true → is_lower_hex (lower_character c) ≡ true
lower_hex c h = grind arith

lower_dash :
    (c s : ℕ)
    → (s == b'x') ≡ false
    → (s == b'-') ≡ true
    → (c == s) ≡ true
    → (lower_character c == s) ≡ true
lower_dash c s not_x dash e = grind arith

-- The shapes consist of an x for a digit, and of dashes.
is_shape : List ℕ → Bool
is_shape [] = true
is_shape (s ∷ shape) = (s == b'x' || s == b'-') && is_shape shape

has_shape-lower :
    (shape value : List ℕ)
    → is_shape shape ≡ true
    → has_shape is_hex shape value ≡ true
    → has_shape is_lower_hex shape (map lower_character value) ≡ true
unfolding has_shape is_shape
has_shape-lower [] [] s h = refl
has_shape-lower [] (c ∷ cs) s h = absurd (ground arith)
has_shape-lower (d ∷ shape) [] s h = absurd (ground arith)
has_shape-lower (d ∷ shape) (c ∷ cs) s h = elim (Bool-cases (d == b'x')) [
  | inl digit ↦ rw digit (ground (arith, lower_hex c, has_shape-lower shape cs))
  | inr dash ↦ rw dash (ground (arith, lower_dash c d dash, has_shape-lower shape cs))
]

lower_zero : (c : ℕ) → (lower_character c == b'0') ≡ (c == b'0')
lower_zero c = grind arith

lower_minus : (c : ℕ) → (lower_character c == b'-') ≡ (c == b'-')
lower_minus c = grind arith

is_zero_id-lower :
    (wanted : Bool) (value : List ℕ)
    → is_zero_id wanted (map lower_character value) ≡ is_zero_id wanted value
unfolding is_zero_id
is_zero_id-lower wanted [] = refl
is_zero_id-lower wanted (c ∷ cs) =
    rw (lower_zero c, lower_minus c, is_zero_id-lower (c == b'-') cs) refl

shapes : (platform : FixedProbePlatform) → is_shape (shape_of platform) ≡ true
unfolding is_shape
shapes windows = refl
shapes linux = refl
shapes macos = refl

-- An identifier that a probe may report is a normal one in lower case.
native-normal :
    (lower : String → String) (platform : FixedProbePlatform) (value : String)
    → LowersAscii lower value
    → is_native_machine_id platform (codes value) ≡ true
    → is_normal_id platform (codes (lower value)) ≡ true
unfolding is_native_machine_id is_normal_id
native-normal lower platform value lowers h =
    let shaped =
      has_shape-lower (shape_of platform) (codes value) (shapes platform) (ground arith) in
    subst (λ cs. (has_shape is_lower_hex (shape_of platform) cs && not (is_zero_id true cs)) ≡ true)
      (sym lowers) (ground (arith, shaped, is_zero_id-lower true (codes value)))

-- An identifier in lower case may be reported by a probe too.
lower_is_hex : (c : ℕ) → is_lower_hex c ≡ true → is_hex c ≡ true
lower_is_hex c h = grind arith

has_shape-wider :
    (shape value : List ℕ)
    → has_shape is_lower_hex shape value ≡ true
    → has_shape is_hex shape value ≡ true
unfolding has_shape
has_shape-wider [] [] h = refl
has_shape-wider [] (c ∷ cs) h = absurd (ground arith)
has_shape-wider (s ∷ shape) [] h = absurd (ground arith)
has_shape-wider (s ∷ shape) (c ∷ cs) h = elim (Bool-cases (s == b'x')) [
  | inl digit ↦ rw digit (ground (arith, lower_is_hex c, has_shape-wider shape cs))
  | inr dash ↦ rw dash (ground (arith, has_shape-wider shape cs))
]

normal-native :
    (platform : FixedProbePlatform) (value : List ℕ)
    → is_normal_id platform value ≡ true
    → is_native_machine_id platform value ≡ true
unfolding is_native_machine_id is_normal_id
normal-native platform value h = ground (arith, has_shape-wider (shape_of platform) value)

-- What the parser of the probe has tested and lowered.
record Lowered (lower : String → String) (raw : String) (result : TargetInfoProbeResult)
    : Type 0 where
  fits : is_native_machine_id result.reported_platform (codes raw) ≡ true
  id_is : result.native_machine_id ≡ some (lower raw)

parse_target_info-Lowered :
    (lower : String → String) (fields : Fields) (result : TargetInfoProbeResult) (raw : String)
    → optional_text fields "machine.nativeId" 128 no_pattern ≡ ok (some raw)
    → parse_target_info lower fields ≡ ok result
    → Lowered lower raw result
unfolding parse_target_info
parse_target_info-Lowered lower fields result raw read e =
    let (platform, e1, s1) = bind-ok (required_enum fields "platform" platforms) _ (sym e) in
    let (native_id, e2, s2) =
      bind-ok (optional_text fields "machine.nativeId" 128 no_pattern) _ s1 in
    let (fits, s3) = require-ok (native_id_fits platform native_id) _ _ (sym s2) in
    let (hostname, e4, s4) =
      bind-ok (optional_text fields "machine.hostname" 255 hostname_pattern) _ (sym s3) in
    let (os, e5, s5) = bind-ok (read_operating_system fields) _ s4 in
    let (disk, e6, s6) = bind-ok (read_complete_disk fields) _ s5 in
    let (docker, e7, s7) = bind-ok (read_docker_facts fields) _ s6 in
    let there : native_id ≡ some raw = ok-injective (sym e2 ∙ read) in
    subst (λ r. Lowered lower raw r) (ok-injective (sym s7))
      (record {
        fits = subst (λ o. native_id_fits platform o ≡ true) there fits;
        id_is =
            ap (λ (o : Option String). elim o [ none ↦ none | some id ↦ some (lower id) ]) there;
      })

-- For a text that is put into lower case character by character, and so is the outcome: when a probe of
-- a target reports it as the native identifier of the machine and is read, the identifier in the result
-- is accepted when a machine id is derived from it under an open key of 32 bytes.
pub parse_target_info-derive :
    (hmac : List ℕ → String → String) (lower : String → String) (key : List ℕ) (fields : Fields)
    (result : TargetInfoProbeResult) (raw : String)
    → length key ≡ 32
    → LowersAscii lower raw
    → LowersAscii lower (lower raw)
    → optional_text fields "machine.nativeId" 128 no_pattern ≡ ok (some raw)
    → parse_target_info lower fields ≡ ok result
    → (result.native_machine_id ≡ some (lower raw))
      × (is_ok (derive hmac lower (record { key = some key }) result.reported_platform (lower raw))
          ≡ true)
unfolding derive derive_machine_id normalize_native_machine_id
parse_target_info-derive hmac lower key fields result raw size lowers again read e =
    let l = parse_target_info-Lowered lower fields result raw read e in
    let platform = result.reported_platform in
    let normal = native-normal lower platform (lower raw) again (
      normal-native platform (codes (lower raw))
        (native-normal lower platform raw lowers l.fits)) in
    let sized : (length key == 32) ≡ true = ground (arith, ==_iff (length key) 32) in
    (l.id_is, rw (sized, normal) refl)
