-- ===== src/ProbeParser/Fields.antt =====
-- The readers of single fields in src/core/probe-parser.ts. A pattern is a test on code points. A
-- `FixedProbeParseError` is an error of which the message is kept.
use enhanced_ssh.Prelude.{
  ℕ, zero, suc, ◌+◌, ◌-◌, ◌*◌, Bool, true, false, not, ◌&&◌, String, List, [], ◌∷◌, Option, none,
  some, leb, ltb, ◌==◌, if◌then◌else◌, length, codes, all, str_eq, get,
}
use Prim.Native.Nat.{◌/◌, ◌%◌}
use Prim.Native.String.{◌++◌ as append_text}
use enhanced_ssh.Errors.{Failure, other_error}
use enhanced_ssh.Result.{Result, ok, err, ◌>>=◌, ◌>>◌, require}
use enhanced_ssh.RollingLog.{max_safe_integer}

abbrev pub Fields : Type 0
Fields = List (String × String)

abbrev pub Pattern : Type 0
Pattern = List ℕ → Bool

abbrev pub parse_error : String → Failure
parse_error message = other_error message

-- text.length, which counts UTF-16 units.
unfoldable pub utf16_length : List ℕ → ℕ
utf16_length [] = 0
utf16_length (c ∷ cs) = (if ltb 0xffff c then 2 else 1) + utf16_length cs

abbrev pub no_pattern : Pattern
no_pattern cs = true

-- A first character of one class, and at most `maximum` of another.
abbrev pub name_pattern : (ℕ → Bool) → (ℕ → Bool) → ℕ → Pattern
name_pattern first rest maximum [] = false
name_pattern first rest maximum (c ∷ cs) = first c && all rest cs && leb (length cs) maximum

unfoldable pub assert_text : String → String → ℕ → Pattern → Result (Unit {0})
assert_text value key maximum pattern =
    let size = utf16_length (codes value) in
    require (leb 1 size && leb size maximum && pattern (codes value))
      (parse_error (append_text "Probe returned an invalid value for " key))

unfoldable pub required_text : Fields → String → ℕ → Pattern → Result String
required_text fields key maximum pattern = elim (get key fields) [
  | none ↦ err (parse_error (append_text "Probe output is missing " key))
  | some value ↦ do assert_text value key maximum pattern; ok value
]

unfoldable pub optional_text : Fields → String → ℕ → Pattern → Result (Option String)
optional_text fields key maximum pattern = elim (get key fields) [
  | none ↦ ok none
  | some value ↦ do assert_text value key maximum pattern; ok (some value)
]

unfoldable pub required_boolean : Fields → String → Result Bool
required_boolean fields key = do
  value ← required_text fields key 5 no_pattern
  if str_eq value "true"
      then ok true
      else if str_eq value "false"
      then ok false
      else err (parse_error (append_text "Probe returned an invalid boolean for " key))

abbrev pub is_digit : ℕ → Bool
is_digit c = leb b'0' c && leb c b'9'

-- /^(?:0|[1-9][0-9]*)$/
unfoldable pub is_decimal : Pattern
is_decimal [] = false
is_decimal (c ∷ []) = is_digit c
is_decimal (c ∷ d ∷ cs) = is_digit c && not (c == b'0') && all is_digit (d ∷ cs)

-- Number(text) of digits, after the value of those before.
unfoldable pub decimal_value : ℕ → List ℕ → ℕ
decimal_value before [] = before
decimal_value before (c ∷ cs) = decimal_value (before * 10 + (c - b'0')) cs

unfoldable pub required_safe_integer : Fields → String → ℕ → ℕ → Result ℕ
required_safe_integer fields key maximum minimum = do
  value ← required_text fields key 32 no_pattern
  require (is_decimal (codes value))
      (parse_error (append_text "Probe returned an invalid integer for " key))
  let parsed = decimal_value 0 (codes value)
  require (leb parsed max_safe_integer && leb minimum parsed && leb parsed maximum)
      (parse_error (append_text "Probe returned an out-of-range integer for " key))
  ok parsed

unfoldable pub optional_safe_integer : Fields → String → Result (Option ℕ)
optional_safe_integer fields key = elim (get key fields) [
  | none ↦ ok none
  | some value ↦ do n ← required_safe_integer fields key max_safe_integer 0; ok (some n)
]

-- The value of the spelling among those of an enumeration.
unfoldable pub enum_value {ℓ} : {A : Type ℓ} → String → List (String × A) → Result A
enum_value value [] = err (parse_error "Probe returned an unknown enum value")
enum_value value ((spelling, a) ∷ rest) =
    if str_eq spelling value then ok a else enum_value value rest

unfoldable pub required_enum {ℓ} : {A : Type ℓ} → Fields → String → List (String × A) → Result A
required_enum fields key values = do
  value ← required_text fields key 128 no_pattern
  enum_value value values

unfoldable pub optional_enum {ℓ} :
    {A : Type ℓ} → Fields → String → List (String × A) → Result (Option A)
optional_enum fields key values = elim (get key fields) [
  | none ↦ ok none
  | some value ↦ do a ← enum_value value values; ok (some a)
]

abbrev digit : ℕ → String
digit n =
    if n == 0
    then "0"
    else if n == 1
    then "1"
    else if n == 2
    then "2"
    else if n == 3
    then "3"
    else if n == 4
    then "4"
    else if n == 5
    then "5"
    else if n == 6
    then "6"
    else if n == 7
    then "7"
    else if n == 8
    then "8"
    else "9"

-- The decimal digits of a number, with fuel.
unfoldable pub decimal_digits : ℕ → ℕ → String
decimal_digits zero n = ""
decimal_digits (suc fuel) n =
    let front = decimal_digits fuel (n / 10) in
    if ltb n 10 then digit n else append_text front (digit (n % 10))

-- `${index}`; the indexes of a report are under 100.
unfoldable pub index_text : ℕ → String
index_text n = decimal_digits 3 n
