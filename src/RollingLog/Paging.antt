-- ===== src/RollingLog/Paging.antt =====
-- Pages of a rolling log: what `read` returns, and that reading on gets through the stream.
use enhanced_ssh.Prelude.{
  ℕ, zero, suc, ◌+◌, ◌-◌, ◌≤◌, ◌<◌, min, Bool, true, false, not, ◌&&◌, ◌||◌, List, [], ◌∷◌, ◌≡◌,
  refl, sym, ap, ◌∙◌, ◌⊎◌, inl, inr, arith, lt→ltb, length, take, drop, get_or, length-take,
  length-drop, drop-drop, take-take, take_all, drop_all, Bool-cases, ltb, ◌==◌, subst,
}
use native.Mathlib.Decide.{dec_le, dec_lt}
use enhanced_ssh.Utf8.{complete_utf8_prefix_length, expected_bytes}
use enhanced_ssh.Utf8.Boundary.{IsText, empty, complete-IsText}
use enhanced_ssh.Utf8.Cut.{cut_is_boundary}
use enhanced_ssh.Utf8.Bounds.{complete-le, complete-zero}
use enhanced_ssh.RollingLog.{subarray, utf8_sequence_length, widen, trim, page}
use enhanced_ssh.RollingLog.History.{log_of}

take-min : (n : ℕ) (xs : List ℕ) → take (min (length xs) n) xs ≡ take n xs
take-min n xs = elim (dec_le (length xs) n) [
  | yes h ↦
      ap (λ k. take k xs) {x = min (length xs) n} {y = length xs} (omega arith)
      ∙ take_all (length xs) xs (omega arith)
      ∙ sym (take_all n xs h)
  | no h ↦ ap (λ k. take k xs) {x = min (length xs) n} {y = n} (omega arith)
]

-- `subarray` of the buffer is a window of the stream.
subarray-log_of :
    (limit : ℕ) (history : List ℕ) (offset m : ℕ)
    → length history - limit ≤ offset
    → offset ≤ length history
    → let log = log_of limit history in
      let relative = offset - log.start_offset in
      subarray log.buffer relative (min (length log.buffer) (relative + m))
      ≡ take m (drop offset history)
subarray-log_of limit history offset m above below =
    let start : ℕ = length history - limit in
    let u : List ℕ = drop offset history in
    let relative : ℕ = offset - start in
    let at : drop relative (drop start history) ≡ u =
      drop-drop relative start history
      ∙ ap (λ k. drop k history) {x = start + relative} (omega arith) in
    let size : min (length (drop start history)) (relative + m) - relative ≡ min (length u) m =
      omega (arith, length-drop start history, length-drop offset history) in
    rw (size, at) (take-min m u)

utf8_sequence_length-expected : (lead : ℕ) → utf8_sequence_length lead ≡ expected_bytes lead
unfolding utf8_sequence_length expected_bytes
utf8_sequence_length-expected lead = ground arith

-- The two outcomes of `widen`.
widen_cases :
    (buffer : List ℕ) (relative : ℕ) (bytes : List ℕ)
    → ((widen buffer relative bytes ≡ bytes)
        × ((0 < length bytes) → 0 < complete_utf8_prefix_length bytes))
      ⊎ ((missing : ℕ) × (0 < length bytes)
          × (missing + length bytes ≡ expected_bytes (get_or bytes 0 0))
          × (widen buffer relative bytes
              ≡ subarray buffer relative
                  (min (length buffer) (relative + (length bytes + missing)))))
unfolding widen
widen_cases buffer relative bytes =
    elim (Bool-cases (ltb 0 (length bytes) && complete_utf8_prefix_length bytes == 0)) [
      | inl stuck ↦
          let some : 0 < length bytes = ground arith in
          let none_whole : complete_utf8_prefix_length bytes ≡ 0 = ground arith in
          let short = complete-zero bytes some none_whole in
          let lead : ℕ = get_or bytes 0 0 in
          let expected = utf8_sequence_length-expected lead in
          let missing : ℕ = expected_bytes lead - length bytes in
          let same : length bytes - 0 ≡ length bytes = omega arith in
          let has_bytes : ltb 0 (length bytes) ≡ true = lt→ltb 0 (length bytes) some in
          let has_missing : ltb 0 missing ≡ true = lt→ltb 0 missing (omega arith) in
          let add : relative + length bytes + missing ≡ relative + (length bytes + missing) =
            omega arith in
          inr (
            missing,
            some,
            omega arith,
            rw (none_whole, expected, same, has_bytes, has_missing)
                (ap (λ k. subarray buffer relative (min (length buffer) k)) add),
          )
      | inr moves ↦ inl (ground arith, λ h. ground arith)
    ]

get_or-take : (n : ℕ) (xs : List ℕ) → 0 < n → get_or (take n xs) 0 0 ≡ get_or xs 0 0
get_or-take zero xs h = absurd (omega arith)
get_or-take (suc n) [] h = refl
get_or-take (suc n) (x ∷ xs) h = refl

-- Bytes that hold the sequence their lead announces are not all cut off.
positive :
    (bytes : List ℕ)
    → 0 < length bytes
    → expected_bytes (get_or bytes 0 0) ≤ length bytes
    → 0 < complete_utf8_prefix_length bytes
positive bytes some whole = elim (dec_le (complete_utf8_prefix_length bytes) 0) [
  | yes z ↦ absurd (omega (arith, complete-zero bytes some (omega arith)))
  | no nz ↦ omega arith
]

module _ (limit : ℕ) (history : List ℕ) (offset : ℕ) (above : length history - limit ≤ offset)
    (below : offset ≤ length history) where
  -- The rest of the stream from `offset`.
  abbrev pub rest : List ℕ
  rest = drop offset history

  -- What is left of the window after `widen` is a window again, which holds a whole sequence if it
  -- holds a byte and is not the end of the stream.
  record Widened (wanted : ℕ) (bytes : List ℕ) : Type 0 where
    size : ℕ
    fits : size ≤ length rest
    bytes_are : bytes ≡ take size rest
    grows : min wanted (length rest) ≤ size
    moves : 0 < size → size < length rest → 0 < complete_utf8_prefix_length bytes

  widened :
      (wanted : ℕ)
      → let relative = offset - (length history - limit) in
        let buffer = drop (length history - limit) history in
        Widened wanted (
          widen buffer relative
            (subarray buffer relative (min (length buffer) (relative + wanted))))
  widened wanted =
      let relative : ℕ = offset - (length history - limit) in
      let buffer : List ℕ = drop (length history - limit) history in
      let window : List ℕ = subarray buffer relative (min (length buffer) (relative + wanted)) in
      let e : window ≡ take wanted rest = subarray-log_of limit history offset wanted above below in
      let window_size : length window ≡ min wanted (length rest) =
        ap length e ∙ length-take wanted rest in
      elim (widen_cases buffer relative window) [
        | inl (same, moves) ↦ record {
          size = min (length rest) wanted;
          fits = omega arith;
          bytes_are = same ∙ e ∙ sym (take-min wanted rest);
          grows = omega arith;
          moves = λ some _. rw same (moves (omega arith));
        }
        | inr (missing, some, announced, grown) ↦
            let larger : ℕ = length window + missing in
            let bytes : List ℕ = widen buffer relative window in
            let bytes_eq : bytes ≡ take larger rest =
              grown ∙ subarray-log_of limit history offset larger above below in
            let bytes_size : length bytes ≡ min larger (length rest) =
              ap length bytes_eq ∙ length-take larger rest in
            let same_lead : get_or bytes 0 0 ≡ get_or window 0 0 =
              ap (λ l. get_or l 0 0) bytes_eq
              ∙ get_or-take larger rest (omega arith)
              ∙ sym (ap (λ l. get_or l 0 0) e ∙ get_or-take wanted rest (omega arith)) in
            record {
              size = min (length rest) larger;
              fits = omega arith;
              bytes_are = bytes_eq ∙ sym (take-min larger rest);
              grows = omega arith;
              moves = λ _ inside.
                  positive bytes (omega arith) (omega (arith, ap expected_bytes same_lead));
            }
      ]

  -- A page is a window of the stream. It is empty only at the end of the stream, or where a stream
  -- that still runs ends in an incomplete sequence; and on a text it ends between two sequences.
  pub record IsPage (wanted : ℕ) (terminal : Bool) (bytes : List ℕ) : Type 0 where
    pub fits : length bytes ≤ length rest
    pub bytes_are : bytes ≡ take (length bytes) rest
    pub moves : 0 < wanted → (terminal ≡ true) ⊎ IsText rest → 0 < length rest → 0 < length bytes
    pub texts : IsText rest → IsText bytes × IsText (drop (length bytes) rest)

  module _ (wanted : ℕ) (terminal : Bool) (bytes : List ℕ) (w : Widened wanted bytes) where
    widened-length : length bytes ≡ w.size
    widened-length = ap length w.bytes_are ∙ length-take w.size rest ∙ omega (arith, w.fits)

    -- The page of an unfinished stream, or before the end of the stream.
    cut-IsPage :
        not terminal || ltb (offset + length bytes) (length history) ≡ true
        → IsPage wanted terminal (take (complete_utf8_prefix_length bytes) bytes)
    cut-IsPage cut =
        let k : ℕ = complete_utf8_prefix_length bytes in
        let kept : length (take k bytes) ≡ k =
          length-take k bytes ∙ omega (arith, complete-le bytes) in
        let shown : take k bytes ≡ take k rest =
          ap (take k) w.bytes_are
          ∙ take-take k w.size rest (omega (arith, complete-le bytes, widened-length)) in
        let same : complete_utf8_prefix_length (take w.size rest) ≡ k =
          ap complete_utf8_prefix_length (sym w.bytes_are) in
        record {
          fits = omega (arith, w.fits, complete-le bytes, widened-length);
          bytes_are = rw kept shown;
          moves = λ some_wanted why more. rw kept (elim (dec_lt w.size (length rest)) [
            | yes inside ↦ w.moves (omega (arith, w.grows)) inside
            | no at_end ↦ elim why [
              | inl ended ↦
                  absurd (omega (arith, widened-length, length-drop offset history, ends cut ended))
              | inr text ↦ omega (
                arith,
                same,
                complete-IsText (subst IsText (sym (take_all w.size rest (omega arith))) text),
                length-take w.size rest,
              )
            ]
          ]);
          texts = λ text.
              let (before, after, _, _) = cut_is_boundary text w.size w.fits in
              (
                subst IsText (ap (λ n. take n rest) same ∙ sym shown) before,
                subst IsText (ap (λ n. drop n rest) (same ∙ sym kept)) after,
              );
        }
      where
        ends :
            not terminal || ltb (offset + length bytes) (length history) ≡ true
            → terminal ≡ true
            → offset + length bytes < length history
        ends c t = ground arith

    -- The last page of a finished stream.
    whole-IsPage :
        not terminal || ltb (offset + length bytes) (length history) ≡ false
        → IsPage wanted terminal bytes
    whole-IsPage whole =
        let all : length rest ≤ length bytes =
          omega (arith, length-drop offset history, ends whole) in
        let shown : bytes ≡ take (length bytes) rest = rw widened-length w.bytes_are in
        record {
          fits = omega (arith, w.fits, widened-length);
          bytes_are = shown;
          moves = λ some_wanted why more. omega arith;
          texts = λ text. (
            subst IsText (sym (shown ∙ take_all (length bytes) rest all)) text,
            subst IsText (sym (drop_all (length bytes) rest all)) empty,
          );
        }
      where
        ends :
            not terminal || ltb (offset + length bytes) (length history) ≡ false
            → length history ≤ offset + length bytes
        ends c = ground arith

  trim-IsPage :
      (wanted : ℕ) (terminal : Bool) (bytes : List ℕ)
      → Widened wanted bytes
      → IsPage wanted terminal (trim (log_of limit history) offset terminal bytes)
  unfolding trim
  trim-IsPage wanted terminal bytes w =
      elim (Bool-cases (not terminal || ltb (offset + length bytes) (length history))) [
        | inl cut ↦ rw cut (cut-IsPage wanted terminal bytes w cut)
        | inr whole ↦ rw whole (whole-IsPage wanted terminal bytes w whole)
      ]

  pub page-IsPage :
      (wanted : ℕ) (terminal : Bool)
      → IsPage wanted terminal (page (log_of limit history) offset wanted terminal)
  unfolding page
  page-IsPage wanted terminal = trim-IsPage wanted terminal _ (widened wanted)
