-- ===== src/RemoteCommand/Quoting.antt =====
-- A value quoted for a POSIX shell, and a reader of the words of such a shell.
use enhanced_ssh.Prelude.{
  ℕ, Bool, not, ◌&&◌, subst, true, false, ◌||◌, any, [], ◌∷◌, ◌++◌, append_assoc, Option, none,
  some, ◌≡◌, refl, sym, ap, ◌∙◌, arith, if◌then◌else◌, ◌==◌, ==_iff, Bool-cases, inl, inr, all,
  codes, drop, map, is_alphanumeric,
}
use enhanced_ssh.RemoteCommand.Validate.{Text, is_environment_name}
use enhanced_ssh.RemoteCommand.Render.{
  escape_quotes, quote_posix_literal, posix_variable, posix_cwd,
}

-- Outside quotes and not behind a backslash, a character may stand for itself, end the word, open quotes
-- or stand before a character to be taken as it is; all others have a meaning of their own to the shell,
-- as operators, expansions, patterns, comments or ends of a line.
pub data Meaning : Type 0 where
  itself word_end quote backslash operator : Meaning

abbrev pub operators : Text
operators = codes "|&;<>()$`\"*?[]#~%!{}\t\n\r"

unfoldable pub is_operator : ℕ → Bool
is_operator c = any (λ d. c == d) operators

unfoldable pub meaning : ℕ → Meaning
meaning c =
    if c == b' '
    then word_end
    else if c == b'\''
    then quote
    else if c == b'\\'
    then backslash
    else if is_operator c
    then operator
    else itself

-- Between quotes every character stands for itself; after a backslash that is not between quotes, the
-- next one does.
pub data Mode : Type 0 where
  outside inside escaped : Mode

abbrev pub put_front : ℕ → Option (Text × Text) → Option (Text × Text)
put_front c none = none
put_front c (some (word, rest)) = some (c ∷ word, rest)

-- The word that a text begins with, up to the blank that ends it; none for a text where a character
-- outside quotes means more to a shell than itself.
unfoldable pub shell_word : Mode → Text → Option (Text × Text)
shell_word outside [] = some ([], [])
shell_word inside [] = none
shell_word escaped [] = none
shell_word outside (c ∷ cs) =
    let plain = shell_word outside cs in
    let quoted = shell_word inside cs in
    let literal = shell_word escaped cs in
    elim (meaning c) [
      | word_end ↦ some ([], c ∷ cs)
      | quote ↦ quoted
      | backslash ↦ literal
      | operator ↦ none
      | itself ↦ put_front c plain
    ]
shell_word inside (c ∷ cs) =
    let quoted = shell_word inside cs in
    let plain = shell_word outside cs in if c == b'\'' then plain else put_front c quoted
shell_word escaped (c ∷ cs) =
    let plain = shell_word outside cs in if c == b'\n' then none else put_front c plain

-- A character that stands for itself.
unfoldable is_plain : ℕ → Bool
is_plain c = elim (meaning c) [
  | itself ↦ true
  | word_end ↦ false
  | quote ↦ false
  | backslash ↦ false
  | operator ↦ false
]

shell_word-escape_quotes :
    (value rest : Text)
    → shell_word inside (escape_quotes value ++ b'\'' ∷ b' ' ∷ rest) ≡ some (value, b' ' ∷ rest)
unfolding shell_word escape_quotes meaning
shell_word-escape_quotes [] rest = refl
shell_word-escape_quotes (c ∷ cs) rest = elim (Bool-cases (c == b'\'')) [
  | inl is_quote ↦
      rw (is_quote, shell_word-escape_quotes cs rest)
        (ap (λ q. some (q ∷ cs, b' ' ∷ rest)) (sym (ground (arith, ==_iff c b'\''))))
  | inr plain ↦ rw (plain, shell_word-escape_quotes cs rest, plain) refl
]

-- A shell reads a quoted value, between a front of characters that stand for themselves and a blank, back
-- as it was.
shell_word-quoted :
    (front value rest : Text)
    → all is_plain front ≡ true
    → shell_word outside (front ++ (quote_posix_literal value ++ b' ' ∷ rest))
      ≡ some (front ++ value, b' ' ∷ rest)
unfolding shell_word quote_posix_literal is_plain meaning
shell_word-quoted [] value rest plain =
    ap (shell_word inside) (append_assoc (escape_quotes value) (b'\'' ∷ []) (b' ' ∷ rest))
    ∙ shell_word-escape_quotes value rest
shell_word-quoted (c ∷ front) value rest plain = ground (arith, shell_word-quoted front value rest)

-- The front of an assignment has no character that a shell takes for anything but itself.
abbrev is_name_character : ℕ → Bool
is_name_character c = is_alphanumeric c || c == b'_'

not_one : (c d : ℕ) → is_name_character d ≡ false → is_name_character c ≡ true → (c == d) ≡ false
not_one c d apart h = elim (Bool-cases (c == d)) [
  | inr differ ↦ differ
  | inl same ↦
      let at_d : is_name_character d ≡ true =
        subst (λ x. is_name_character x ≡ true) ((==_iff c d).0 same) h in
      absurd (clash (is_name_character d) apart at_d)
]
  where
    clash : (b : Bool) → b ≡ false → b ≡ true → ⊥
    clash b p q = cc

and-true : (a b : Bool) → (a && b) ≡ true → (a ≡ true) × (b ≡ true)
and-true a b h = ground arith

not-true : (b : Bool) → not b ≡ true → b ≡ false
not-true b h = ground arith

not_listed :
    (c : ℕ) (listed : Text)
    → all (λ d. not (is_name_character d)) listed ≡ true
    → is_name_character c ≡ true
    → any (λ d. c == d) listed ≡ false
not_listed c [] none_of h = refl
not_listed c (d ∷ listed) none_of h =
    let (apart, later) = and-true (not (is_name_character d)) _ none_of in
    rw (not_one c d (not-true (is_name_character d) apart) h, not_listed c listed later h) refl

name-plain : (c : ℕ) → is_name_character c ≡ true → is_plain c ≡ true
unfolding is_plain meaning is_operator
name-plain c h =
    let no_blank = not_one c b' ' refl h in
    let no_quote = not_one c b'\'' refl h in
    let no_backslash = not_one c b'\\' refl h in
    rw
      (
        is_plain,
        meaning,
        no_blank,
        no_quote,
        no_backslash,
        is_operator,
        not_listed c operators refl h,
      )
      refl

name-front :
    (name : Text)
    → all (λ d. is_alphanumeric d || d == b'_') name ≡ true
    → all is_plain (name ++ b'=' ∷ []) ≡ true
unfolding is_plain meaning is_operator
name-front [] h = refl
name-front (c ∷ cs) h = ground (arith, name-front cs, name-plain c)

environment_name-all :
    (name : Text)
    → is_environment_name name ≡ true
    → all (λ d. is_alphanumeric d || d == b'_') name ≡ true
unfolding is_environment_name
environment_name-all [] h = refl
environment_name-all (c ∷ cs) h = ground arith

-- What stands after a quoted value in a statement of the prelude.
abbrev pub variable_tail : Text
variable_tail =
    codes " 2>/dev/null; then printf '%s\\n' 'Remote environment setup failed.' >&2; exit 1; fi"

abbrev pub cwd_tail : Text
cwd_tail =
    codes
      " 2>/dev/null; then printf '%s\\n' 'Remote working directory is unavailable.' >&2; exit 1; fi"

-- After `if ! export ` a shell reads, as one word, the assignment of the very value to a valid name;
-- after `if ! cd -- ` it reads the very working directory. What follows is the fixed rest of the
-- statement: no value of a client ends its word early or is taken for anything but its characters. The
-- reader refuses a text that has, outside quotes, a character that means more to a shell than itself.
pub prelude_words :
    (name value cwd : Text)
    → is_environment_name name ≡ true
    → (shell_word outside (drop 12 (posix_variable (name, value)))
        ≡ some (name ++ b'=' ∷ value, variable_tail))
      × (map (λ statement. shell_word outside (drop 11 statement)) (posix_cwd (some cwd))
          ≡ some (cwd, cwd_tail) ∷ [])
unfolding posix_variable posix_cwd
prelude_words name value cwd valid = (
  ap (shell_word outside)
        (sym (append_assoc name (b'=' ∷ []) (quote_posix_literal value ++ variable_tail)))
      ∙ shell_word-quoted (name ++ b'=' ∷ []) value _
          (name-front name (environment_name-all name valid))
      ∙ ap (λ w. some (w, variable_tail)) (append_assoc name (b'=' ∷ []) value),
  ap (λ w. w ∷ []) (shell_word-quoted [] cwd _ refl),
)
