-- ===== src/TransferPaths.antt =====
-- Remote paths of src/core/transfer-paths.ts: those of POSIX targets here, those of Windows targets in
-- the child of that name, and the quoting of a path in an SFTP batch. A path is the list of its code
-- points. Every error is a `TransferPathError` with the code INVALID_PATH, of which the message is kept.
pub mod Segments
pub mod Canonical
pub mod Quoting
pub mod Windows
mod Tests
use enhanced_ssh.Prelude.{
  ℕ, ◌+◌, Bool, true, false, not, ◌&&◌, ◌||◌, String, List, [], ◌∷◌, ◌++◌, if◌then◌else◌, ltb, leb,
  ◌==◌, all, any, length,
}
use enhanced_ssh.Errors.{Failure, other_error}
use enhanced_ssh.Result.{Result, ok, err, ◌>>=◌, ◌>>◌, require}

-- The bytes of a code point in UTF-8.
abbrev pub utf8_bytes : ℕ → ℕ
utf8_bytes c = if ltb c 0x80 then 1 else if ltb c 0x800 then 2 else if ltb c 0x10000 then 3 else 4

unfoldable pub byte_length : List ℕ → ℕ
byte_length [] = 0
byte_length (c ∷ cs) = utf8_bytes c + byte_length cs

abbrev pub invalid_path : String → Failure
invalid_path message = other_error message

-- [\u0000-\u001f\u007f]
abbrev pub is_control : ℕ → Bool
is_control c = leb c 0x1f || c == 0x7f

unfoldable pub validate_path_text : List ℕ → Result (Unit {0})
validate_path_text value =
    require (ltb 0 (length value) && leb (byte_length value) 4096 && not (any is_control value))
      (invalid_path "Transfer path must be non-empty, valid text of at most 4096 UTF-8 bytes")

abbrev slash : ℕ
slash = 47

-- Put a code point at the front of the first part.
abbrev pub extend : ℕ → List (List ℕ) → List (List ℕ)
extend c [] = (c ∷ []) ∷ []
extend c (part ∷ parts) = (c ∷ part) ∷ parts

-- value.split("/")
unfoldable pub split : List ℕ → List (List ℕ)
split [] = [] ∷ []
split (c ∷ cs) = let rest = split cs in if c == slash then [] ∷ rest else extend c rest

-- .filter((segment) => segment.length > 0)
unfoldable pub drop_empty : List (List ℕ) → List (List ℕ)
drop_empty [] = []
drop_empty ([] ∷ parts) = drop_empty parts
drop_empty ((c ∷ part) ∷ parts) = (c ∷ part) ∷ drop_empty parts

unfoldable pub segments : List ℕ → List (List ℕ)
segments value = drop_empty (split value)

-- segments.join("/")
unfoldable pub join : List (List ℕ) → List ℕ
join [] = []
join (part ∷ []) = part
join (part ∷ next ∷ parts) = part ++ slash ∷ join (next ∷ parts)

-- segment === "." || segment === ".."
unfoldable pub is_traversal : List ℕ → Bool
is_traversal [] = false
is_traversal (a ∷ []) = a == 46
is_traversal (a ∷ b ∷ []) = a == 46 && b == 46
is_traversal (a ∷ b ∷ c ∷ rest) = false

-- value.startsWith("/") and not value.startsWith("//")
unfoldable pub is_posix_absolute : List ℕ → Bool
is_posix_absolute [] = false
is_posix_absolute (a ∷ []) = a == slash
is_posix_absolute (a ∷ b ∷ rest) = a == slash && not (b == slash)

-- segments.length === 0 ? "/" : `/${segments.join("/")}`
unfoldable pub render : List (List ℕ) → List ℕ
render [] = slash ∷ []
render (part ∷ parts) = slash ∷ join (part ∷ parts)

-- normalizeRemoteTransferPath for a platform that is not windows.
unfoldable pub normalize_posix_path : List ℕ → Result (List ℕ)
normalize_posix_path value = do
  validate_path_text value
  require (is_posix_absolute value) (invalid_path "Remote POSIX paths must be absolute")
  require (not (any is_traversal (segments value)))
      (invalid_path "Remote path must not contain traversal segments")
  ok (render (segments value))

-- [\\"*?\[\]]
abbrev pub is_special : ℕ → Bool
is_special c = c == 92 || c == 34 || c == 42 || c == 63 || c == 91 || c == 93

unfoldable pub escape : List ℕ → List ℕ
escape [] = []
escape (c ∷ cs) = let rest = escape cs in if is_special c then 92 ∷ c ∷ rest else c ∷ rest

unfoldable pub quote_sftp_batch_path : List ℕ → Result (List ℕ)
quote_sftp_batch_path value = do validate_path_text value; ok (34 ∷ escape value ++ 34 ∷ [])
