-- ===== src/RollingLog/Reading.antt =====
-- What a reader of a rolling log gets, page by page.
use native.Mathlib.Decide.{dec_lt}
use enhanced_ssh.Prelude.{
  ℕ, zero, suc, ◌+◌, ◌-◌, ◌≤◌, ◌<◌, max, Bool, true, not, List, [], ◌∷◌, ◌++◌, ◌≡◌, refl, sym, ap,
  ap₂, ◌∙◌, ◌⊎◌, inl, arith, le→leb, length, take, drop, length-drop, drop-drop, take-append-drop,
  drop_all, subst,
}
use enhanced_ssh.Result.{ok}
use enhanced_ssh.Utf8.Boundary.{IsText}
use enhanced_ssh.RollingLog.{RollingLog, Decoder, Chunk, max_safe_integer, page, read}
use enhanced_ssh.RollingLog.History.{log_of}
use enhanced_ssh.RollingLog.Paging.{IsPage, page-IsPage}

-- A chunk shows the stream from `effective` on: as many bytes as it says, decoded, and the next
-- offset behind them. It names what was lost between the offset asked for and the log's start.
pub record Shows (decoder : Decoder) (history : List ℕ) (requested effective : ℕ) (chunk : Chunk)
    : Type 0 where
  pub text_is : chunk.text ≡ decoder.to_text (take chunk.bytes_read (drop effective history))
  pub errors_are :
      chunk.had_decoding_errors
      ≡ not (decoder.is_valid (take chunk.bytes_read (drop effective history)))
  pub dropped_is : chunk.dropped_bytes + requested ≡ effective
  pub next_is : chunk.next_offset ≡ effective + chunk.bytes_read
  pub inside : chunk.next_offset ≤ length history

module _ (decoder : Decoder) (limit : ℕ) (history : List ℕ) (requested wanted : ℕ) (terminal : Bool)
    (safe : requested ≤ max_safe_integer) (known : requested ≤ length history) where
  abbrev effective : ℕ
  effective = max requested (length history - limit)

  abbrev bytes : List ℕ
  bytes = page (log_of limit history) effective wanted terminal

  abbrev shown : Chunk
  shown = record {
    text = decoder.to_text bytes;
    bytes_read = length bytes;
    dropped_bytes = effective - requested;
    next_offset = effective + length bytes;
    had_decoding_errors = not (decoder.is_valid bytes);
  }

  read-shown : read decoder (log_of limit history) requested wanted terminal ≡ ok shown
  unfolding read
  read-shown = rw (le→leb requested max_safe_integer safe, le→leb requested (length history) known)

  above : length history - limit ≤ effective
  above = omega arith

  below : effective ≤ length history
  below = omega arith

  is_page : IsPage limit history effective above below wanted terminal bytes
  is_page = page-IsPage limit history effective above below wanted terminal

  shown-Shows : Shows decoder history requested effective shown
  shown-Shows = record {
    text_is = ap decoder.to_text is_page.bytes_are;
    errors_are = ap (λ l. not (decoder.is_valid l)) is_page.bytes_are;
    dropped_is = omega arith;
    next_is = refl;
    inside = omega (arith, is_page.fits, length-drop effective history);
  }

  -- Reading at an offset that the stream has reached returns a chunk of the stream from that offset,
  -- or from the log's start if the bytes before it are gone, and the chunk says how many are gone.
  pub read-Shows :
      (chunk : Chunk) × (read decoder (log_of limit history) requested wanted terminal ≡ ok chunk)
      × Shows decoder history requested (max requested (length history - limit)) chunk
  read-Shows = (shown, read-shown, shown-Shows)

  -- With a positive limit, and bytes left to read, the chunk is not empty if the stream has ended or
  -- what is left of it is well-formed UTF-8. So no reader is held up by an incomplete sequence.
  pub read_moves :
      0 < wanted
      → (terminal ≡ true) ⊎ IsText (drop (max requested (length history - limit)) history)
      → max requested (length history - limit) < length history
      → (chunk : Chunk) × (read decoder (log_of limit history) requested wanted terminal ≡ ok chunk)
        × (0 < chunk.bytes_read)
  read_moves some why more =
      (shown, read-shown, is_page.moves some why (omega (arith, length-drop effective history)))

  -- If what is left of the stream is well-formed UTF-8, so are the chunk and what is left after it:
  -- no sequence is split between two chunks, whatever limit the reader asks for.
  pub read-IsText :
      IsText (drop (max requested (length history - limit)) history)
      → (chunk : Chunk) × (read decoder (log_of limit history) requested wanted terminal ≡ ok chunk)
        × IsText (take chunk.bytes_read (drop (max requested (length history - limit)) history))
        × IsText (drop chunk.next_offset history)
  read-IsText text =
      let (here, after) = is_page.texts text in
      (
        shown,
        read-shown,
        subst IsText is_page.bytes_are here,
        subst IsText (drop-drop (length bytes) effective history) after,
      )

-- The bytes that a client gets from a finished stream: it follows `next_offset` until the end.
unfoldable pub read_on : RollingLog → ℕ → ℕ → ℕ → List ℕ
read_on log wanted zero offset = []
read_on log wanted (suc fuel) offset =
    let effective_offset = max offset log.start_offset in
    let here = page log effective_offset wanted true in
    here ++ read_on log wanted fuel (effective_offset + length here)

nil_of_length : (xs : List ℕ) → length xs ≤ 0 → xs ≡ []
nil_of_length [] h = refl
nil_of_length (x ∷ xs) h = absurd (omega arith)

read_on_at_end :
    (limit : ℕ) (history : List ℕ) (wanted fuel offset : ℕ)
    → max offset (length history - limit) ≡ length history
    → read_on (log_of limit history) wanted fuel offset ≡ []
unfolding read_on
read_on_at_end limit history wanted zero offset e = refl
read_on_at_end limit history wanted (suc fuel) offset e =
    let effective : ℕ = max offset (length history - limit) in
    let p = page-IsPage limit history effective (omega arith) (omega arith) wanted true in
    let nothing : length (page (log_of limit history) effective wanted true) ≡ 0 =
      omega (arith, p.fits, length-drop effective history) in
    ap₂ ◌++◌ (nil_of_length _ (omega arith))
      (read_on_at_end limit history wanted fuel _ (omega arith))

-- The chunks of a finished stream, one after the other, are all that the log holds from `offset` on.
-- One round for each byte is enough.
pub read_on-all :
    (limit : ℕ) (history : List ℕ) (wanted fuel offset : ℕ)
    → 0 < wanted
    → offset ≤ length history
    → length history < offset + fuel
    → read_on (log_of limit history) wanted fuel offset
      ≡ drop (max offset (length history - limit)) history
unfolding read_on
read_on-all limit history wanted zero offset some known enough = absurd (omega arith)
read_on-all limit history wanted (suc fuel) offset some known enough =
    let effective : ℕ = max offset (length history - limit) in
    let rest : List ℕ = drop effective history in
    let p = page-IsPage limit history effective (omega arith) (omega arith) wanted true in
    let n : ℕ = length (page (log_of limit history) effective wanted true) in
    let size = length-drop effective history in
    elim (dec_lt effective (length history)) [
      | yes more ↦
          let some_read : 0 < n = p.moves some (inl refl) (omega arith) in
          let later : read_on (log_of limit history) wanted fuel (effective + n) ≡ drop n rest =
            read_on-all limit history wanted fuel (effective + n) some (omega (arith, p.fits))
              (omega arith)
            ∙ ap (λ k. drop k history) {y = effective + n} (omega arith)
            ∙ sym (drop-drop n effective history) in
          ap₂ ◌++◌ p.bytes_are later ∙ take-append-drop n rest
      | no done ↦
          read_on_at_end limit history wanted (suc fuel) offset (omega arith)
          ∙ sym (drop_all effective history (omega arith))
    ]
