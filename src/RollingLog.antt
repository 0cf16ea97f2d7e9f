-- ===== src/RollingLog.antt =====
-- `RollingByteLog` of src/core/task-store.ts: the last `limit` bytes of a stream, addressed by
-- offsets into the whole stream. Decoding bytes to text is Node's, and is a parameter.
pub mod History
pub mod Paging
pub mod Reading
mod Tests
use enhanced_ssh.Prelude.{
  ℕ, ◌+◌, ◌-◌, min, max, Bool, not, ◌&&◌, ◌||◌, String, List, [], ◌++◌, ltb, leb, ◌==◌,
  if◌then◌else◌, length, get_or, take, drop,
}
use enhanced_ssh.Errors.{invalid_params, raise_gateway, Failure}
use enhanced_ssh.Result.{Result, ok, err, ◌>>=◌, ◌>>◌, require}
use enhanced_ssh.Utf8.{complete_utf8_prefix_length}

-- Number.MAX_SAFE_INTEGER
abbrev pub max_safe_integer : ℕ
max_safe_integer = 9007199254740991

-- buffer.toString("utf8"), and the fatal TextDecoder.
pub record Decoder : Type 0 where
  pub to_text : List ℕ → String
  pub is_valid : List ℕ → Bool

pub record RollingLog : Type 0 where
  pub limit : ℕ
  pub buffer : List ℕ
  pub start_offset : ℕ
  pub total_bytes : ℕ

unfoldable pub create : ℕ → RollingLog
create limit = record { limit = limit; buffer = []; start_offset = 0; total_bytes = 0 }

unfoldable pub append : RollingLog → List ℕ → RollingLog
append log chunk =
    let total = log.total_bytes + length chunk in
    let joined = log.buffer ++ chunk in
    let overflow = length joined - log.limit in
    if ltb log.limit (length joined)
    then record log {
      total_bytes = total;
      buffer = drop overflow joined;
      start_offset = log.start_offset + overflow;
    }
    else record log { total_bytes = total; buffer = joined }

-- buffer.subarray(from, to)
abbrev pub subarray : List ℕ → ℕ → ℕ → List ℕ
subarray buffer from to = take (to - from) (drop from buffer)

unfoldable pub utf8_sequence_length : ℕ → ℕ
utf8_sequence_length lead =
    if leb 0xc2 lead && leb lead 0xdf
    then 2
    else if leb 0xe0 lead && leb lead 0xef
    then 3
    else if leb 0xf0 lead && leb lead 0xf4
    then 4
    else 1

-- A window that holds only a part of one sequence grows by the bytes that the sequence lacks.
unfoldable pub widen : List ℕ → ℕ → List ℕ → List ℕ
widen buffer relative bytes =
    let complete_bytes = complete_utf8_prefix_length bytes in
    let partial_length = length bytes - complete_bytes in
    let missing = utf8_sequence_length (get_or bytes complete_bytes 0) - partial_length in
    if ltb 0 (length bytes) && complete_bytes == 0 && ltb 0 missing
    then subarray buffer relative (min (length buffer) (relative + length bytes + missing))
    else bytes

-- Unless the stream has ended here, an incomplete last sequence is left for the next page.
unfoldable pub trim : RollingLog → ℕ → Bool → List ℕ → List ℕ
trim log effective_offset terminal bytes =
    if not terminal || ltb (effective_offset + length bytes) log.total_bytes
    then take (complete_utf8_prefix_length bytes) bytes
    else bytes

-- The bytes of a page from `effective_offset`.
unfoldable pub page : RollingLog → ℕ → ℕ → Bool → List ℕ
page log effective_offset limit terminal =
    let relative = effective_offset - log.start_offset in
    let window = subarray log.buffer relative (min (length log.buffer) (relative + limit)) in
    trim log effective_offset terminal (widen log.buffer relative window)

pub record Chunk : Type 0 where
  pub text : String
  pub bytes_read : ℕ
  pub dropped_bytes : ℕ
  pub next_offset : ℕ
  pub had_decoding_errors : Bool

abbrev pub invalid_cursor : Failure
invalid_cursor = raise_gateway invalid_params "Task cursor is invalid"

unfoldable pub read : Decoder → RollingLog → ℕ → ℕ → Bool → Result Chunk
read decoder log requested_offset limit terminal = do
  require (leb requested_offset max_safe_integer) invalid_cursor
  require (leb requested_offset log.total_bytes) invalid_cursor
  let effective_offset = max requested_offset log.start_offset
  let bytes = page log effective_offset limit terminal
  ok (record {
    text = decoder.to_text bytes;
    bytes_read = length bytes;
    dropped_bytes = effective_offset - requested_offset;
    next_offset = effective_offset + length bytes;
    had_decoding_errors = not (decoder.is_valid bytes);
  })
