-- ===== src/ProbeParser/FrameLaws.antt =====
-- What the fields of a frame are that is accepted.
use enhanced_ssh.Prelude.{
  ℕ, suc, ◌+◌, ◌≤◌, Bool, true, false, not, ◌&&◌, ◌||◌, String, List, [], ◌∷◌, Option, none, some,
  ◌≡◌, refl, sym, subst, arith, leb, leb→le, length, codes, all, any, str_eq, eq_iff, get, has_key,
  set, Option-cases, inl, inr, length-set_new,
}
use Prim.Native.String.{len}
use enhanced_ssh.Result.{ok, bind-ok, require-ok, ok-injective}
use enhanced_ssh.ProbeParser.Types.{FixedProbeKind}
use enhanced_ssh.ProbeParser.Fields.{Fields}
use enhanced_ssh.ProbeParser.Frame.{
  Codec, max_encoded_field_bytes, max_probe_fields, is_key, is_control, is_canonical_base64,
  decode_canonical_base64, has_bare_return, unify_newlines, ends_newline, split_first, known_keys,
  add_entry, add_field, read_fields, frame_body, parse_lines, parse_frame, max_output_bytes,
}

-- A key in the form of a key with a value that has no control character.
abbrev pub is_clean : String × String → Bool
is_clean entry = is_key (codes entry.0) && not (any is_control (codes entry.1))

-- No key is there twice.
abbrev pub has_distinct_keys : Fields → Bool
has_distinct_keys [] = true
has_distinct_keys ((key, value) ∷ rest) = not (has_key key rest) && has_distinct_keys rest

decode-clean :
    (codec : Codec) (encoded value : String)
    → decode_canonical_base64 codec encoded ≡ ok value
    → any is_control (codes value) ≡ false
unfolding decode_canonical_base64
decode-clean codec encoded value e =
    let (sized, s1) =
      require-ok
        (leb 1 (length (codes encoded))
          && leb (length (codes encoded)) max_encoded_field_bytes
          && is_canonical_base64 (codes encoded))
        _ _ e in
    let (canonical, s2) =
      require-ok
        (str_eq (codec.to_base64 (codec.from_base64 encoded)) encoded
          && codec.is_utf8 (codec.from_base64 encoded))
        _ _ s1 in
    let (clean, s3) =
      require-ok (not (any is_control (codes (codec.to_text (codec.from_base64 encoded))))) _ _
        s2 in
    subst (λ v. any is_control (codes v) ≡ false) (ok-injective s3) (ground arith)

all-set :
    (p : String × String → Bool) (key value : String) (m : Fields)
    → all p m ≡ true
    → p (key, value) ≡ true
    → get key m ≡ none
    → all p (set key value m) ≡ true
unfolding get set
all-set p key value [] rest here new = ground arith
all-set p key value ((k, b) ∷ m) rest here new = ground (arith, all-set p key value m)

has_key-set :
    (other key value : String) (m : Fields)
    → has_key other (set key value m) ≡ (has_key other m || str_eq key other)
unfolding get set
has_key-set other key value [] = ground arith
has_key-set other key value ((k, b) ∷ m) =
    ground (arith, eq_iff k key, eq_iff k other, eq_iff key other, has_key-set other key value m)

has_distinct_keys-set :
    (key value : String) (m : Fields)
    → has_distinct_keys m ≡ true
    → get key m ≡ none
    → has_distinct_keys (set key value m) ≡ true
unfolding get set
has_distinct_keys-set key value [] apart new = refl
has_distinct_keys-set key value ((k, b) ∷ m) apart new = ground (
  arith,
  eq_iff k key,
  eq_iff key k,
  has_key-set k key value m,
  has_distinct_keys-set key value m,
)

-- Fields that are clean, with no key twice.
pub record SoundFields (fields : Fields) : Type 0 where
  pub clean : all is_clean fields ≡ true
  pub distinct : has_distinct_keys fields ≡ true

absent :
    {A : Type 0} (key : String) (m : List (String × A)) → has_key key m ≡ false → get key m ≡ none
absent key m h = elim (Option-cases (get key m)) [
  | inl none_there ↦ none_there
  | inr (a, there) ↦ absurd (ground arith)
]

add_entry-SoundFields :
    (codec : Codec) (fields next : Fields) (parts : Option (String × String))
    → SoundFields fields
    → add_entry codec fields parts ≡ ok next
    → SoundFields next × (length next ≡ suc (length fields))
unfolding add_entry
add_entry-SoundFields codec fields next none h e = absurd (ground arith)
add_entry-SoundFields codec fields next (some (key, encoded)) h e =
    let (sized, s1) = require-ok (leb 1 (length (codes key))) _ _ e in
    let (fits, s2) = require-ok (is_key (codes key) && not (has_key key fields)) _ _ s1 in
    let (value, decoded, s3) = bind-ok (decode_canonical_base64 codec encoded) _ (sym s2) in
    let new = absent key fields (ground arith) in
    subst (λ m. SoundFields m × (length m ≡ suc (length fields))) (ok-injective (sym s3))
      (
        record {
          clean =
              all-set is_clean key value fields h.clean
                (cleanly _ _ (ground arith) (decode-clean codec encoded value decoded)) new;
          distinct = has_distinct_keys-set key value fields h.distinct new;
        },
        length-set_new key value fields new,
      )
  where
    cleanly : (a b : Bool) → a ≡ true → b ≡ false → (a && not b) ≡ true
    cleanly a b p q = ground arith

read_fields-SoundFields :
    (codec : Codec) (lines : List String) (fields last : Fields)
    → SoundFields fields
    → read_fields codec lines fields ≡ ok last
    → SoundFields last × (length last ≡ length fields + length lines)
unfolding read_fields add_field
read_fields-SoundFields codec [] fields last h e =
    subst (λ m. SoundFields m × (length m ≡ length fields + 0)) (ok-injective e) (h, omega arith)
read_fields-SoundFields codec (line ∷ lines) fields last h e =
    let (next, e1, s1) = bind-ok (add_field codec fields line) _ (sym e) in
    let (short, s2) = require-ok (leb (len line) max_encoded_field_bytes) _ _ e1 in
    let (sound, one) = add_entry-SoundFields codec fields next (split_first b':' line) h s2 in
    let (all_sound, total) = read_fields-SoundFields codec lines next last sound (sym s1) in
    (all_sound, omega arith)

-- The fields of a frame of one kind.
pub record Framed (kind : FixedProbeKind) (fields : Fields) : Type 0 where
  pub sound : SoundFields fields
  pub known : known_keys kind fields ≡ true
  pub least : 1 ≤ length fields
  pub most : length fields ≤ max_probe_fields

parse_lines-Framed :
    (codec : Codec) (kind : FixedProbeKind) (lines : List String) (fields : Fields)
    → parse_lines codec kind lines ≡ ok fields
    → Framed kind fields
unfolding parse_lines
parse_lines-Framed codec kind lines fields e =
    let (body, e1, s1) = bind-ok (frame_body kind lines) _ (sym e) in
    let (count, s2) =
      require-ok (leb 1 (length body) && leb (length body) max_probe_fields) _ _ (sym s1) in
    let (found, e3, s3) = bind-ok (read_fields codec body []) _ (sym s2) in
    let (known, s4) = require-ok (known_keys kind found) _ _ (sym s3) in
    let (sound, total) =
      read_fields-SoundFields codec body [] found (record { clean = refl; distinct = refl }) e3 in
    let least = leb→le 1 (length body) (ground arith) in
    let most = leb→le (length body) max_probe_fields (ground arith) in
    subst (λ f. Framed kind f) (ok-injective s4)
      (record { sound = sound; known = known; least = omega arith; most = omega arith })

-- Output that is accepted has from 1 through 131072 bytes, and from 1 through 512 fields: each of a key
-- that belongs to its kind of probe, none twice, and a value without control characters.
pub parse_frame-Framed :
    (codec : Codec) (kind : FixedProbeKind) (output : List ℕ) (fields : Fields)
    → parse_frame codec kind output ≡ ok fields
    → Framed kind fields × (1 ≤ length output) × (length output ≤ 131072)
unfolding parse_frame
parse_frame-Framed codec kind output fields e =
    let (sized, s1) =
      require-ok (leb 1 (length output) && leb (length output) max_output_bytes) _ _ e in
    let (utf8, s2) = require-ok (codec.is_utf8 output) _ _ s1 in
    let (no_return, s3) = require-ok (not (has_bare_return (codec.to_text output))) _ _ s2 in
    let (ended, s4) = require-ok (ends_newline (unify_newlines (codec.to_text output))) _ _ s3 in
    (
      parse_lines-Framed codec kind _ fields s4,
      leb→le 1 (length output) (ground arith),
      leb→le (length output) max_output_bytes (ground arith),
    )
