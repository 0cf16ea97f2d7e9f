-- ===== src/RemoteCommand/Acceptance.antt =====
-- Which structured commands are accepted, said apart from the code.
use enhanced_ssh.Prelude.{
  ◌+◌, Bool, true, false, not, ◌&&◌, List, [], ◌∷◌, Option, none, some, ◌≡◌, refl, ap, ◌∙◌, arith,
  leb, all, any, length, Bool-cases, inl, inr,
}
use enhanced_ssh.Errors.{Failure}
use enhanced_ssh.Result.{Result, ok, err, require, ◌>>◌, ◌>>=◌, is_ok}
use enhanced_ssh.TargetRegistry.Types.{TargetPlatform}
use enhanced_ssh.TargetRegistry.Authorize.{max_command_bytes}
use enhanced_ssh.TransferPaths.{byte_length}
use enhanced_ssh.RemoteCommand.Validate.{
  Text, Environment, Texts, StructuredRemoteCommandInput, max_environment_entries,
  is_environment_name, same_text, is_name_seen, has_nul, normalized_name, check_entries,
  insert_entry, sort_entries, is_before, validate_environment, is_supported, is_bash, cwd_fits,
  cwd_bytes, environment_bytes, payload_bytes, validate_structured_input,
}

module _ (texts : Texts) (ignore_case : Bool) where
  -- No two variables have the same normalized name.
  abbrev pub has_distinct_names : Environment → Bool
  has_distinct_names [] = true
  has_distinct_names (entry ∷ rest) =
      not (
        any
          (λ (later : Text × Text).
            same_text (normalized_name texts ignore_case entry.0)
              (normalized_name texts ignore_case later.0))
          rest)
      && has_distinct_names rest

  abbrev pub fits_entry : Text × Text → Bool
  fits_entry entry = is_environment_name entry.0 && not (has_nul entry.1)

  abbrev is_new : List Text → Text × Text → Bool
  is_new names entry = not (is_name_seen (normalized_name texts ignore_case entry.0) names)

  all-is_new :
      (name : Text) (names : List Text) (entries : Environment)
      → all (is_new (name ∷ names)) entries ≡ (
          not (
            any
              (λ (later : Text × Text). same_text name (normalized_name texts ignore_case later.0))
              entries)
          && all (is_new names) entries)
  all-is_new name names [] = refl
  all-is_new name names (entry ∷ entries) = ground (arith, all-is_new name names entries)

  all-is_new_nil : (entries : Environment) → all (is_new []) entries ≡ true
  all-is_new_nil [] = refl
  all-is_new_nil (entry ∷ entries) = all-is_new_nil entries

  check_entries-accepts :
      (entries : Environment) (names : List Text)
      → is_ok (check_entries texts ignore_case entries names)
        ≡ (all fits_entry entries && (has_distinct_names entries && all (is_new names) entries))
  unfolding check_entries
  check_entries-accepts [] names = refl
  check_entries-accepts ((name, value) ∷ entries) names = ground (
    arith,
    check_entries-accepts entries (normalized_name texts ignore_case name ∷ names),
    all-is_new (normalized_name texts ignore_case name) names entries,
  )

abbrev pub given : Option Environment → Environment
given none = []
given (some entries) = entries

-- An environment of at most 64 variables, valid and distinct.
abbrev pub fits_environment : Texts → Bool → Environment → Bool
fits_environment texts ignore_case entries =
    leb (length entries) max_environment_entries
    && (all (fits_entry texts ignore_case) entries && has_distinct_names texts ignore_case entries)

-- A structured command that fits its target.
unfoldable pub accepts : Texts → TargetPlatform → StructuredRemoteCommandInput → Bool
accepts texts platform input =
    is_supported platform input.shell
    && (not (texts.is_blank input.script)
        && (not (has_nul input.script)
            && (cwd_fits texts input.cwd
                && (fits_environment texts (not (is_bash input.shell)) (given input.env)
                    && leb
                        (byte_length input.script
                          + cwd_bytes input.cwd
                          + environment_bytes (given input.env))
                        max_command_bytes))))

environment_bytes-insert_entry :
    (entry : Text × Text) (rest : Environment)
    → environment_bytes (insert_entry entry rest)
      ≡ byte_length entry.0 + byte_length entry.1 + environment_bytes rest
unfolding environment_bytes insert_entry
environment_bytes-insert_entry entry [] = refl
environment_bytes-insert_entry entry (other ∷ rest) =
    elim (Bool-cases (is_before other.0 entry.0)) [
      | inl before ↦ rw before (omega (arith, environment_bytes-insert_entry entry rest))
      | inr after ↦ rw after refl
    ]

environment_bytes-sort_entries :
    (entries : Environment) → environment_bytes (sort_entries entries) ≡ environment_bytes entries
unfolding environment_bytes sort_entries
environment_bytes-sort_entries [] = refl
environment_bytes-sort_entries (entry ∷ rest) =
    environment_bytes-insert_entry entry (sort_entries rest)
    ∙ ap (λ n. byte_length entry.0 + byte_length entry.1 + n) (environment_bytes-sort_entries rest)

is_ok-require :
    {A : Type 0} (test : Bool) (failure : Failure) (rest : Result A)
    → is_ok (require test failure >> rest) ≡ (test && is_ok rest)
is_ok-require false failure rest = refl
is_ok-require true failure rest = refl

is_ok-then :
    {A B : Type 0} (test : Bool) (failure : Failure) (check : Result (Unit {0})) (a : A)
    (next : A → Result B)
    → is_ok ((require test failure >> (check >> ok a)) >>= next)
      ≡ (test && (is_ok check && is_ok (next a)))
is_ok-then false failure check a next = refl
is_ok-then true failure (ok tt) a next = refl
is_ok-then true failure (err e) a next = refl

is_ok-validate_environment :
    {B : Type 0} (texts : Texts) (env : Option Environment) (ignore_case : Bool)
    (next : Environment → Result B)
    → is_ok (validate_environment texts env ignore_case >>= next)
      ≡ (fits_environment texts ignore_case (given env) && is_ok (next (sort_entries (given env))))
unfolding validate_environment sort_entries
is_ok-validate_environment texts none ignore_case next = refl
is_ok-validate_environment texts (some entries) ignore_case next =
    is_ok-then _ _ (check_entries texts ignore_case entries []) (sort_entries entries) next
    ∙ join (leb (length entries) max_environment_entries) _ _ _ _ _
        (check_entries-accepts texts ignore_case entries [])
        (all-is_new_nil texts ignore_case entries)
  where
    join :
        (small checked fit distinct new last : Bool)
        → checked ≡ (fit && (distinct && new))
        → new ≡ true
        → (small && (checked && last)) ≡ ((small && (fit && distinct)) && last)
    join small checked fit distinct new last p q = ground arith

-- A structured command is accepted exactly when its shell belongs to the platform, its script is not
-- blank and has no NUL, its working directory fits, and its environment has at most 64 variables, of
-- valid names that are distinct (up to case, but for bash) and values without NUL, all in
-- the limit of bytes.
pub validate_structured_input-accepts :
    (texts : Texts) (platform : TargetPlatform) (input : StructuredRemoteCommandInput)
    → is_ok (validate_structured_input texts platform input) ≡ accepts texts platform input
unfolding validate_structured_input accepts payload_bytes
validate_structured_input-accepts texts platform input =
    is_ok-require (is_supported platform input.shell) _ _
    ∙ ap (λ b. is_supported platform input.shell && b)
        (is_ok-require (not (texts.is_blank input.script) && not (has_nul input.script)) _ _
          ∙ ap (λ b. (not (texts.is_blank input.script) && not (has_nul input.script)) && b)
              (is_ok-require (cwd_fits texts input.cwd) _ _
                ∙ ap (λ b. cwd_fits texts input.cwd && b)
                    (is_ok-validate_environment texts input.env (not (is_bash input.shell)) _
                      ∙ ap
                          (λ b.
                            fits_environment texts (not (is_bash input.shell)) (given input.env)
                            && b)
                          (is_ok-require _ _ _
                            ∙ last _ _ (
                                ap
                                  (λ n.
                                    leb (byte_length input.script + cwd_bytes input.cwd + n)
                                      max_command_bytes)
                                  (environment_bytes-sort_entries (given input.env))))))
          ∙ split (not (texts.is_blank input.script)) (not (has_nul input.script)) _)
  where
    last : (a b : Bool) → a ≡ b → (a && true) ≡ b
    last a b p = ground arith

    split : (a b c : Bool) → ((a && b) && c) ≡ (a && (b && c))
    split a b c = ground arith
