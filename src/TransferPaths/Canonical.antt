-- ===== src/TransferPaths/Canonical.antt =====
-- A normalised path is its own normal form.
use enhanced_ssh.Prelude.{
  ℕ, ◌+◌, ◌≤◌, Bool, true, false, not, ◌&&◌, List, [], ◌∷◌, ◌++◌, ◌≡◌, refl, sym, ◌∙◌, ap, subst,
  arith, if◌then◌else◌, ltb, leb, le→leb, ◌==◌, all, any, length,
}
use enhanced_ssh.Result.{ok, require-ok}
use enhanced_ssh.TransferPaths.{
  utf8_bytes, byte_length, is_control, split, drop_empty, segments, join, render, extend,
  is_traversal, normalize_posix_path, validate_path_text, is_posix_absolute,
}
use enhanced_ssh.TransferPaths.Segments.{
  is_segment, segments-segment, segments-render, normalize_posix_path-ok,
}

-- The bytes of the parts, with one separator for each.
unfoldable total : List (List ℕ) → ℕ
total [] = 0
total (part ∷ parts) = byte_length part + 1 + total parts

total-extend :
    (c n : ℕ) (parts : List (List ℕ))
    → total parts ≡ n + 1
    → total (if c == 47 then [] ∷ parts else extend c parts) ≡ utf8_bytes c + n + 1
unfolding total byte_length
total-extend c n [] h = absurd (omega arith)
total-extend c n (part ∷ parts) h = ground arith

total-split : (value : List ℕ) → total (split value) ≡ byte_length value + 1
unfolding total split byte_length
total-split [] = refl
total-split (c ∷ cs) = omega (arith, total-extend c (byte_length cs) (split cs) (total-split cs))

total-drop_empty : (parts : List (List ℕ)) → total (drop_empty parts) ≤ total parts
unfolding total drop_empty
total-drop_empty [] = omega arith
total-drop_empty ([] ∷ parts) = omega (arith, total-drop_empty parts)
total-drop_empty ((c ∷ part) ∷ parts) = omega (arith, total-drop_empty parts)

byte_length-append :
    (left right : List ℕ) → byte_length (left ++ right) ≡ byte_length left + byte_length right
unfolding byte_length
byte_length-append [] right = omega arith
byte_length-append (c ∷ left) right = omega (arith, byte_length-append left right)

total-join :
    (part : List ℕ) (parts : List (List ℕ))
    → byte_length (join (part ∷ parts)) + 1 ≡ total (part ∷ parts)
unfolding total join byte_length
total-join part [] = omega arith
total-join part (next ∷ parts) =
    omega (arith, byte_length-append part (47 ∷ join (next ∷ parts)), total-join next parts)

-- No control character in any part.
abbrev is_clean : List ℕ → Bool
is_clean part = not (any is_control part)

clean-split : (value : List ℕ) → is_clean value ≡ true → all is_clean (split value) ≡ true
unfolding split
clean-split [] h = refl
clean-split (c ∷ cs) h = clean c (split cs) (ground arith) (clean-split cs (ground arith))
  where
    clean :
        (c : ℕ) (parts : List (List ℕ))
        → is_control c ≡ false
        → all is_clean parts ≡ true
        → all is_clean (if c == 47 then [] ∷ parts else extend c parts) ≡ true
    clean c [] fine h = ground arith
    clean c (part ∷ parts) fine h = ground arith

clean-drop_empty :
    (parts : List (List ℕ)) → all is_clean parts ≡ true → all is_clean (drop_empty parts) ≡ true
unfolding drop_empty
clean-drop_empty [] h = refl
clean-drop_empty ([] ∷ parts) h = clean-drop_empty parts h
clean-drop_empty ((c ∷ part) ∷ parts) h = ground (arith, clean-drop_empty parts)

clean-append :
    (left right : List ℕ)
    → is_clean left ≡ true
    → is_clean right ≡ true
    → is_clean (left ++ right) ≡ true
clean-append [] right l r = r
clean-append (c ∷ left) right l r = ground (arith, clean-append left right)

clean-join : (parts : List (List ℕ)) → all is_clean parts ≡ true → is_clean (join parts) ≡ true
unfolding join
clean-join [] h = refl
clean-join (part ∷ []) h = ground arith
clean-join (part ∷ next ∷ parts) h =
    clean-append part (47 ∷ join (next ∷ parts)) (ground arith)
      (clean-join (next ∷ parts) (ground arith))

-- The test of validatePathText.
abbrev is_path_text : List ℕ → Bool
is_path_text value =
    ltb 0 (length value) && leb (byte_length value) 4096 && not (any is_control value)

accept :
    (value : List ℕ)
    → is_path_text value ≡ true
    → is_posix_absolute value ≡ true
    → any is_traversal (segments value) ≡ false
    → normalize_posix_path value ≡ ok (render (segments value))
unfolding normalize_posix_path validate_path_text
accept value valid rooted straight = ground arith

accepted-text :
    (value normal : List ℕ) → normalize_posix_path value ≡ ok normal → is_path_text value ≡ true
unfolding normalize_posix_path validate_path_text
accepted-text value normal e = let (valid, rest) = require-ok (is_path_text value) _ _ e in valid

render-absolute :
    (parts : List (List ℕ)) → all is_segment parts ≡ true → is_posix_absolute (render parts) ≡ true
unfolding render join is_posix_absolute
render-absolute [] h = refl
render-absolute ([] ∷ parts) h = absurd (ground arith)
render-absolute ((c ∷ part) ∷ []) h = ground arith
render-absolute ((c ∷ part) ∷ next ∷ parts) h = ground arith

render-bytes :
    (parts : List (List ℕ)) (limit : ℕ)
    → total parts ≤ limit
    → 1 ≤ limit
    → byte_length (render parts) ≤ limit
unfolding render byte_length total
render-bytes [] limit fits some_room = omega arith
render-bytes (part ∷ parts) limit fits some_room =
    let joined : byte_length (join (part ∷ parts)) + 1 ≡ byte_length part + 1 + total parts =
      total-join part parts in
    omega arith

rooted-bytes :
    (rest : List ℕ)
    → (total (segments (47 ∷ rest)) ≤ byte_length (47 ∷ rest)) × (1 ≤ byte_length (47 ∷ rest))
unfolding segments split drop_empty byte_length
rooted-bytes rest =
    let sized = total-split rest in
    let fewer = total-drop_empty (split rest) in (omega (arith, sized, fewer), omega arith)

at_slash :
    (a : ℕ) (rest : List ℕ)
    → a ≡ 47
    → (total (segments (a ∷ rest)) ≤ byte_length (a ∷ rest)) × (1 ≤ byte_length (a ∷ rest))
at_slash a rest e =
    subst
      (λ x. (total (segments (x ∷ rest)) ≤ byte_length (x ∷ rest)) × (1 ≤ byte_length (x ∷ rest)))
      (sym e) (rooted-bytes rest)

segments-bytes :
    (value : List ℕ)
    → is_posix_absolute value ≡ true
    → (total (segments value) ≤ byte_length value) × (1 ≤ byte_length value)
unfolding is_posix_absolute
segments-bytes [] h = absurd (ground arith)
segments-bytes (a ∷ []) h = at_slash a [] (ground arith)
segments-bytes (a ∷ b ∷ rest) h = at_slash a (b ∷ rest) (ground arith)

render-clean : (parts : List (List ℕ)) → all is_clean parts ≡ true → is_clean (render parts) ≡ true
unfolding render
render-clean [] h = refl
render-clean (part ∷ parts) h = ground (arith, clean-join (part ∷ parts))

render-long : (parts : List (List ℕ)) → ltb 0 (length (render parts)) ≡ true
unfolding render
render-long [] = refl
render-long (part ∷ parts) = ground arith

segments-clean : (value : List ℕ) → is_clean value ≡ true → all is_clean (segments value) ≡ true
unfolding segments
segments-clean value h = clean-drop_empty (split value) (clean-split value h)

render-text :
    (value : List ℕ)
    → is_posix_absolute value ≡ true
    → is_path_text value ≡ true
    → is_path_text (render (segments value)) ≡ true
render-text value rooted valid =
    let (sized, some_room) = segments-bytes value rooted in
    let short = render-bytes (segments value) (byte_length value) sized some_room in
    let clean = render-clean (segments value) (segments-clean value (ground arith)) in
    let long = render-long (segments value) in
    let within : byte_length value ≤ 4096 = ground arith in
    let fits : leb (byte_length (render (segments value))) 4096 ≡ true =
      le→leb _ _ (omega (arith, short, within)) in
    rw (long, fits, clean) refl

-- Normalising a normalised path changes nothing.
pub normalize_posix_path-canonical :
    (value normal : List ℕ)
    → normalize_posix_path value ≡ ok normal
    → normalize_posix_path normal ≡ ok normal
normalize_posix_path-canonical value normal e =
    let (rooted, straight, same) = normalize_posix_path-ok value normal e in
    let parts = segments value in
    let are_segments = segments-segment value in
    let kept : segments (render parts) ≡ parts = segments-render parts are_segments in
    let text : is_path_text (render parts) ≡ true =
      render-text value rooted (accepted-text value normal e) in
    let again : normalize_posix_path (render parts) ≡ ok (render (segments (render parts))) =
      accept (render parts) text (render-absolute parts are_segments)
        (ap (any is_traversal) kept ∙ straight) in
    subst (λ n. normalize_posix_path n ≡ ok n) (sym same) (again ∙ ap (λ ps. ok (render ps)) kept)
