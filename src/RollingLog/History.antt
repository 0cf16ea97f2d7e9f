-- ===== src/RollingLog/History.antt =====
-- The rolling log against the whole stream: it is a function of the stream and the limit.
use enhanced_ssh.Prelude.{
  ℕ, ◌+◌, ◌-◌, ◌≤◌, List, ◌++◌, ◌≡◌, sym, ap, ◌∙◌, arith, length, drop, length-append, length-drop,
  drop-append_left, drop-drop, Bool-cases, inl, inr, ltb, tests, not-lt,
}
use enhanced_ssh.RollingLog.{RollingLog, append}

-- What a log with this limit holds after the stream `history`.
abbrev pub log_of : ℕ → List ℕ → RollingLog
log_of limit history = record {
  limit = limit;
  buffer = drop (length history - limit) history;
  start_offset = length history - limit;
  total_bytes = length history;
}

log-path :
    (limit : ℕ) {b b' : List ℕ} {s s' t t' : ℕ}
    → b ≡ b'
    → s ≡ s'
    → t ≡ t'
    → Path RollingLog
        (record { limit = limit; buffer = b; start_offset = s; total_bytes = t })
        (record { limit = limit; buffer = b'; start_offset = s'; total_bytes = t' })
log-path limit p q r =
    λ i. record { limit = limit; buffer = p i; start_offset = q i; total_bytes = r i }

-- The stream from a later start, after the two ways that the code cuts it.
drop-append-drop :
    (history chunk : List ℕ) (start over end : ℕ)
    → start ≤ length history
    → end ≡ start + over
    → drop over (drop start history ++ chunk) ≡ drop end (history ++ chunk)
drop-append-drop history chunk start over end fits e =
    ap (drop over) (sym (drop-append_left start history chunk fits))
    ∙ drop-drop over start (history ++ chunk)
    ∙ ap (λ k. drop k (history ++ chunk)) (sym e)

joined-length :
    (history chunk : List ℕ) (start : ℕ)
    → length (drop start history ++ chunk) ≡ length history - start + length chunk
joined-length history chunk start =
    omega (arith, length-append (drop start history) chunk, length-drop start history)

-- The log of a stream followed by a chunk is the chunk appended to the log of the stream, where the
-- log of a stream keeps its last `limit` bytes with their offsets.
pub append-log_of :
    (limit : ℕ) (history chunk : List ℕ)
    → append (log_of limit history) chunk ≡ log_of limit (history ++ chunk)
unfolding append
append-log_of limit history chunk =
    let start : ℕ = length history - limit in
    let joined : List ℕ = drop start history ++ chunk in
    let size = joined-length history chunk start in
    let total = length-append history chunk in
    elim (Bool-cases (ltb limit (length joined))) [
      | inl full ↦
          let e : length (history ++ chunk) - limit ≡ start + (length joined - limit) =
            omega (tests, full, total, size) in
          rw full (
            log-path limit (drop-append-drop history chunk start _ _ (omega arith) e) (sym e)
              (sym total))
      | inr fits ↦
          let e : length (history ++ chunk) - limit ≡ start =
            omega (arith, not-lt limit (length joined) fits, total, size) in
          rw fits (
            log-path limit (drop-append-drop history chunk start 0 _ (omega arith) (omega arith))
              (sym e) (sym total))
    ]
