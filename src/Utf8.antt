-- ===== src/Utf8.antt =====
-- src/shared/utf8.ts: the length of the longest prefix of a buffer that does not end inside a
-- UTF-8 sequence. A buffer is the list of its bytes.
pub mod Boundary
pub mod Cut
pub mod Bounds
use enhanced_ssh.Prelude.{
  ℕ, zero, suc, ◌+◌, ◌-◌, Bool, ◌&&◌, List, bit_and, ltb, leb, ◌==◌, if◌then◌else◌, length, get_or,
}

-- (byte & 0xc0) === 0x80
unfoldable pub is_continuation : ℕ → Bool
is_continuation byte = bit_and byte 0xc0 == 0x80

-- How many bytes the lead byte announces.
unfoldable pub expected_bytes : ℕ → ℕ
expected_bytes lead =
    if leb lead 0x7f
    then 1
    else if leb 0xc2 lead && leb lead 0xdf
    then 2
    else if leb 0xe0 lead && leb lead 0xef
    then 3
    else if leb 0xf0 lead && leb lead 0xf4
    then 4
    else 1

-- The `while` loop over (leadIndex + 1, continuationBytes): 0 stands for leadIndex = -1.
unfoldable pub skip_continuations : List ℕ → ℕ → ℕ → ℕ × ℕ
skip_continuations buffer zero count = (0, count)
skip_continuations buffer (suc i) count =
    let next = skip_continuations buffer i (count + 1) in
    if ltb count 3 && is_continuation (get_or buffer i 0) then next else (suc i, count)

-- What follows the loop: the test on the lead byte, if there is one.
unfoldable pub cut_at_lead : List ℕ → ℕ → ℕ → ℕ
cut_at_lead buffer zero count = length buffer
cut_at_lead buffer (suc lead_index) count =
    let expected = expected_bytes (get_or buffer lead_index 0) in
    let available = length buffer - lead_index in
    if ltb available expected && count == available - 1 then lead_index else length buffer

unfoldable pub complete_utf8_prefix_length : List ℕ → ℕ
unfolding skip_continuations cut_at_lead is_continuation expected_bytes
complete_utf8_prefix_length buffer =
    let (lead_end, count) = skip_continuations buffer (length buffer) 0 in
    if length buffer == 0 then 0 else cut_at_lead buffer lead_end count
