-- ===== src/TransferPaths/Quoting.antt =====
-- A quoted path, and a reader of quoted words.
use enhanced_ssh.Prelude.{
  ℕ, Bool, true, false, List, [], ◌∷◌, ◌++◌, append_assoc, Option, none, some, ◌≡◌, refl, ap, subst,
  ◌∙◌, arith, if◌then◌else◌, ◌==◌, Bool-cases, inl, inr,
}
use enhanced_ssh.Result.{ok, require-ok, ok-injective}
use enhanced_ssh.TransferPaths.{is_special, escape, quote_sftp_batch_path, validate_path_text}

abbrev pub put_back : ℕ → Option (List ℕ × List ℕ) → Option (List ℕ × List ℕ)
put_back c none = none
put_back c (some (word, rest)) = some (c ∷ word, rest)

-- The word up to the closing quote, and what follows it. After a backslash, which is `true`, a
-- character stands for itself.
unfoldable pub scan : Bool → List ℕ → Option (List ℕ × List ℕ)
scan escaped [] = none
scan true (c ∷ cs) = put_back c (scan false cs)
scan false (c ∷ cs) =
    let plain = scan false cs in
    let special = scan true cs in
    if c == 34 then some ([], cs) else if c == 92 then special else put_back c plain

unfoldable pub read_word : List ℕ → Option (List ℕ × List ℕ)
read_word [] = none
read_word (c ∷ cs) = if c == 34 then scan false cs else none

scan-escape : (value rest : List ℕ) → scan false (escape value ++ 34 ∷ rest) ≡ some (value, rest)
unfolding scan escape
scan-escape [] rest = refl
scan-escape (c ∷ cs) rest = elim (Bool-cases (is_special c)) [
  | inl special ↦ rw (special, scan-escape cs rest) refl
  | inr plain ↦ ground (arith, scan-escape cs rest)
]

-- A reader that takes a backslash for the sign that the next character stands for itself reads a
-- quoted path back as it was, and stops at its end.
pub read_word-quote_sftp_batch_path :
    (value word rest : List ℕ)
    → quote_sftp_batch_path value ≡ ok word
    → read_word (word ++ rest) ≡ some (value, rest)
unfolding read_word quote_sftp_batch_path validate_path_text
read_word-quote_sftp_batch_path value word rest e =
    let (valid, done) = require-ok _ _ _ e in
    subst (λ w. read_word (w ++ rest) ≡ some (value, rest)) (ok-injective done)
      (ap (scan false) (append_assoc (escape value) (34 ∷ []) rest) ∙ scan-escape value rest)
