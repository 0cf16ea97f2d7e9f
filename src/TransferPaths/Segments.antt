-- ===== src/TransferPaths/Segments.antt =====
-- The segments of a normalised path.
use enhanced_ssh.Prelude.{
  ℕ, Bool, true, false, not, ◌&&◌, List, [], ◌∷◌, ◌++◌, ◌≡◌, refl, sym, ◌∙◌, ap, arith,
  if◌then◌else◌, ◌==◌, all, any,
}
use enhanced_ssh.Result.{ok, require-ok, ok-injective}
use enhanced_ssh.TransferPaths.{
  split, drop_empty, segments, join, render, extend, is_traversal, normalize_posix_path,
  validate_path_text, is_posix_absolute,
}

-- No slash in a part.
abbrev pub is_plain : List ℕ → Bool
is_plain part = all (λ c. not (c == 47)) part

abbrev pub is_filled : List ℕ → Bool
is_filled [] = false
is_filled (c ∷ cs) = true

-- A part that is not empty and has no slash.
abbrev pub is_segment : List ℕ → Bool
is_segment part = is_filled part && is_plain part

split-plain : (value : List ℕ) → all is_plain (split value) ≡ true
unfolding split
split-plain [] = refl
split-plain (c ∷ cs) = plain c (split cs) (split-plain cs)
  where
    plain :
        (c : ℕ) (parts : List (List ℕ))
        → all is_plain parts ≡ true
        → all is_plain (if c == 47 then [] ∷ parts else extend c parts) ≡ true
    plain c [] h = ground arith
    plain c (part ∷ parts) h = ground arith

drop_empty-segment :
    (parts : List (List ℕ)) → all is_plain parts ≡ true → all is_segment (drop_empty parts) ≡ true
unfolding drop_empty
drop_empty-segment [] h = refl
drop_empty-segment ([] ∷ parts) h = drop_empty-segment parts h
drop_empty-segment ((c ∷ part) ∷ parts) h = ground (arith, drop_empty-segment parts)

split-append :
    (part rest : List ℕ) → is_plain part ≡ true → split (part ++ 47 ∷ rest) ≡ part ∷ split rest
unfolding split
split-append [] rest h = refl
split-append (c ∷ part) rest h = ground (arith, split-append part rest)

split-part : (part : List ℕ) → is_plain part ≡ true → split part ≡ part ∷ []
unfolding split
split-part [] h = refl
split-part (c ∷ part) h = ground (arith, split-part part)

split-join :
    (part : List ℕ) (parts : List (List ℕ))
    → all is_segment (part ∷ parts) ≡ true
    → split (join (part ∷ parts)) ≡ part ∷ parts
unfolding join
split-join part [] h = split-part part (ground arith)
split-join part (next ∷ parts) h =
    split-append part (join (next ∷ parts)) (ground arith)
    ∙ ap (λ rest. part ∷ rest) (split-join next parts (ground arith))

drop_empty-all : (parts : List (List ℕ)) → all is_segment parts ≡ true → drop_empty parts ≡ parts
unfolding drop_empty
drop_empty-all [] h = refl
drop_empty-all ([] ∷ parts) h = absurd (ground arith)
drop_empty-all ((c ∷ part) ∷ parts) h = ground (arith, drop_empty-all parts)

pub segments-render :
    (parts : List (List ℕ)) → all is_segment parts ≡ true → segments (render parts) ≡ parts
unfolding segments render split drop_empty
segments-render [] h = refl
segments-render (part ∷ parts) h =
    ap drop_empty (split-join part parts h) ∙ drop_empty-all (part ∷ parts) h

pub segments-segment : (value : List ℕ) → all is_segment (segments value) ≡ true
unfolding segments
segments-segment value = drop_empty-segment (split value) (split-plain value)

not-true : (b : Bool) → not b ≡ true → b ≡ false
not-true b h = ground arith

-- What the normalisation has tested when it succeeds.
pub normalize_posix_path-ok :
    (value normal : List ℕ)
    → normalize_posix_path value ≡ ok normal
    → (is_posix_absolute value ≡ true)
      × (any is_traversal (segments value) ≡ false)
      × (normal ≡ render (segments value))
unfolding normalize_posix_path validate_path_text
normalize_posix_path-ok value normal e =
    let (valid, rest) = require-ok _ _ _ e in
    let (rooted, left) = require-ok (is_posix_absolute value) _ _ rest in
    let (straight, done) = require-ok (not (any is_traversal (segments value))) _ _ left in
    (rooted, not-true _ straight, sym (ok-injective done))

-- A path that is accepted keeps its segments, and none of them is a traversal: the normalised path
-- leads where the accepted one did, and no segment of it goes up.
pub normalize_posix_path-segments :
    (value normal : List ℕ)
    → normalize_posix_path value ≡ ok normal
    → (segments normal ≡ segments value) × (any is_traversal (segments normal) ≡ false)
normalize_posix_path-segments value normal e =
    let (rooted, straight, same) = normalize_posix_path-ok value normal e in
    let kept : segments normal ≡ segments value =
      ap segments same ∙ segments-render (segments value) (segments-segment value) in
    (kept, ap (any is_traversal) kept ∙ straight)
