-- ===== src/Utf8/Bounds.antt =====
-- Bounds on `completeUtf8PrefixLength` for any bytes, well formed or not.
use enhanced_ssh.Prelude.{ℕ, zero, suc, ◌+◌, ◌≤◌, ◌<◌, List, ◌≡◌, arith, length, get_or}
use enhanced_ssh.Utf8.{expected_bytes, skip_continuations, cut_at_lead, complete_utf8_prefix_length}

skip_continuations-le : (buffer : List ℕ) (n count : ℕ) → (skip_continuations buffer n count).0 ≤ n
unfolding skip_continuations
skip_continuations-le buffer zero count = omega arith
skip_continuations-le buffer (suc i) count =
    ground (arith, skip_continuations-le buffer i (count + 1))

cut_at_lead-le :
    (buffer : List ℕ) (n count : ℕ) → n ≤ length buffer → cut_at_lead buffer n count ≤ length buffer
unfolding cut_at_lead
cut_at_lead-le buffer zero count h = omega arith
cut_at_lead-le buffer (suc i) count h = ground arith

-- The cut is never past the buffer's end.
pub complete-le : (bytes : List ℕ) → complete_utf8_prefix_length bytes ≤ length bytes
unfolding complete_utf8_prefix_length
complete-le bytes =
    let walked = skip_continuations-le bytes (length bytes) 0 in
    ground (
      arith,
      cut_at_lead-le bytes (skip_continuations bytes (length bytes) 0).0
          (skip_continuations bytes (length bytes) 0).1 walked,
    )

cut_at_lead-zero :
    (buffer : List ℕ) (n count : ℕ)
    → 0 < length buffer
    → cut_at_lead buffer n count ≡ 0
    → length buffer < expected_bytes (get_or buffer 0 0)
unfolding cut_at_lead
cut_at_lead-zero buffer zero count some e = absurd (omega arith)
cut_at_lead-zero buffer (suc zero) count some e = ground arith
cut_at_lead-zero buffer (suc (suc i)) count some e = absurd (ground arith)

-- Everything is cut off only where the bytes are a part of one sequence.
pub complete-zero :
    (bytes : List ℕ)
    → 0 < length bytes
    → complete_utf8_prefix_length bytes ≡ 0
    → length bytes < expected_bytes (get_or bytes 0 0)
unfolding complete_utf8_prefix_length
complete-zero bytes some e =
    cut_at_lead-zero bytes (skip_continuations bytes (length bytes) 0).0
      (skip_continuations bytes (length bytes) 0).1 some (ground arith)
