-- ===== src/RollingLog/Tests.antt =====
-- The rolling log on short streams, and its theorems at concrete inputs.
use enhanced_ssh.Prelude.{
  ℕ, ◌+◌, ◌≤◌, ◌<◌, true, false, List, [], ◌∷◌, ◌≡◌, refl, inl, arith, take, drop,
}
use enhanced_ssh.Result.{ok, err}
use enhanced_ssh.Utf8.{complete_utf8_prefix_length}
use enhanced_ssh.Utf8.Boundary.{IsText, empty, more, IsSequence}
use enhanced_ssh.Utf8.Cut.{cut_is_boundary}
use enhanced_ssh.RollingLog.{
  Decoder, Chunk, create, append, read, page, widen, trim, utf8_sequence_length, invalid_cursor,
}
use enhanced_ssh.RollingLog.History.{log_of, append-log_of}
use enhanced_ssh.RollingLog.Reading.{
  Shows, read-Shows, read_moves, read-IsText, read_on, read_on-all,
}

run_log : Unit {0}
unfolding create append read page widen trim utf8_sequence_length complete_utf8_prefix_length
run_log = tt

-- "a", U+00E9 in two bytes, U+20AC in three.
abbrev sample : List ℕ
sample = 0x61 ∷ 0xc3 ∷ 0xa9 ∷ 0xe2 ∷ 0x82 ∷ 0xac ∷ []

sample-IsText : IsText sample
sample-IsText =
    more (IsSequence.one (omega arith))
      (more (IsSequence.two (omega arith) (omega arith) (omega arith))
        (more (IsSequence.three (omega arith) (omega arith) (omega arith) (omega arith)) empty refl)
        refl)
      refl

abbrev raw : Decoder
raw = record { to_text = λ bytes. "decoded"; is_valid = λ bytes. true }

log_tests :
    (append (append (create 4) (1 ∷ 2 ∷ 3 ∷ [])) (4 ∷ 5 ∷ 6 ∷ [])
      ≡ record { limit = 4; buffer = 3 ∷ 4 ∷ 5 ∷ 6 ∷ []; start_offset = 2; total_bytes = 6 })
    × (page (log_of 8 sample) 1 1 false ≡ 0xc3 ∷ 0xa9 ∷ [])
    × (page (log_of 8 sample) 0 2 true ≡ 0x61 ∷ [])
    × (read raw (log_of 8 sample) 7 2 true ≡ err invalid_cursor)
unfolding run_log
log_tests = (refl, refl, refl, refl)

append-log_of_example : append (log_of 2 (1 ∷ 2 ∷ 3 ∷ [])) (4 ∷ []) ≡ log_of 2 (1 ∷ 2 ∷ 3 ∷ 4 ∷ [])
append-log_of_example = append-log_of 2 (1 ∷ 2 ∷ 3 ∷ []) (4 ∷ [])

read-Shows_example :
    (chunk : Chunk) × (read raw (log_of 3 sample) 1 2 false ≡ ok chunk) × Shows raw sample 1 3 chunk
read-Shows_example = read-Shows raw 3 sample 1 2 false (omega arith) (omega arith)

read_moves_example :
    (chunk : Chunk) × (read raw (log_of 3 sample) 1 1 true ≡ ok chunk) × (0 < chunk.bytes_read)
read_moves_example =
    read_moves raw 3 sample 1 1 true (omega arith) (omega arith) (omega arith) (inl refl)
      (omega arith)

read-IsText_example :
    (chunk : Chunk) × (read raw (log_of 8 sample) 0 2 false ≡ ok chunk)
    × IsText (take chunk.bytes_read sample)
    × IsText (drop chunk.next_offset sample)
read-IsText_example = read-IsText raw 8 sample 0 2 false (omega arith) (omega arith) sample-IsText

read_on-all_example : read_on (log_of 3 sample) 1 9 0 ≡ 0xe2 ∷ 0x82 ∷ 0xac ∷ []
read_on-all_example = read_on-all 3 sample 1 9 0 (omega arith) (omega arith) (omega arith)

cut_is_boundary_example :
    let k = complete_utf8_prefix_length (take 5 sample) in
    IsText (take k sample) × IsText (drop k sample) × (k ≤ 5) × (5 ≤ k + 3)
cut_is_boundary_example = cut_is_boundary sample-IsText 5 (omega arith)
