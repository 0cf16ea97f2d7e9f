-- ===== src/OutputStore/Quota.antt =====
-- `RetainedByteQuota` of src/core/output-store.ts. Its `Map` of the bytes held under each reference
-- is a list of entries.
pub mod Laws
use enhanced_ssh.Prelude.{
  ℕ, ◌+◌, ◌-◌, min, Bool, not, ◌&&◌, String, List, [], Option, none, some, ltb, leb, if◌then◌else◌,
  length, get, has_key, set, delete,
}
use mathlib.Core.Option.{get_or as or_else}
use enhanced_ssh.Errors.{Failure, other_error}
use enhanced_ssh.Result.{Result, ok, err, ◌>>◌, require}

pub record RetainedByteQuota : Type 0 where
  pub max_bytes : ℕ
  pub max_entries : ℕ
  pub bytes_by_reference : List (String × ℕ)
  pub total_bytes : ℕ

-- `entry_limit` is `currentEntries` of `entryLimit`, if the limit on the entries was met; its
-- `maxEntries` is that of the quota.
pub record ByteReservation : Type 0 where
  pub granted_bytes : ℕ
  pub current_bytes : ℕ
  pub max_bytes : ℕ
  pub entry_limit : Option ℕ

unfoldable pub create : ℕ → ℕ → RetainedByteQuota
create max_bytes max_entries = record {
  max_bytes = max_bytes;
  max_entries = max_entries;
  bytes_by_reference = [];
  total_bytes = 0;
}

-- this.#bytesByReference.get(reference) ?? 0
abbrev pub held : String → List (String × ℕ) → ℕ
held reference entries = or_else (get reference entries) 0

-- The assignments of `reserve` when something is granted.
unfoldable pub book : String → ℕ → RetainedByteQuota → RetainedByteQuota
book reference granted quota = record quota {
  total_bytes = quota.total_bytes + granted;
  bytes_by_reference =
      set reference (held reference quota.bytes_by_reference + granted) quota.bytes_by_reference;
}

unfoldable pub reserve : RetainedByteQuota → String → ℕ → ByteReservation × RetainedByteQuota
reserve quota reference requested =
    let entries = quota.bytes_by_reference in
    let granted = min requested (quota.max_bytes - quota.total_bytes) in
    if ltb 0 requested && not (has_key reference entries) && leb quota.max_entries (length entries)
    then (
      record {
        granted_bytes = 0;
        current_bytes = quota.total_bytes;
        max_bytes = quota.max_bytes;
        entry_limit = some (length entries);
      },
      quota,
    )
    else (
      record {
        granted_bytes = granted;
        current_bytes = quota.total_bytes;
        max_bytes = quota.max_bytes;
        entry_limit = none;
      },
      (if ltb 0 granted then book reference granted quota else quota),
    )

unfoldable pub track_existing : RetainedByteQuota → String → ℕ → Result RetainedByteQuota
track_existing quota reference bytes = do
  require (not (has_key reference quota.bytes_by_reference))
      (other_error "Retained output reference was registered more than once")
  require (leb bytes (quota.max_bytes - quota.total_bytes))
      (other_error "Retained output exceeds the configured total byte limit")
  require (not (leb quota.max_entries (length quota.bytes_by_reference)))
      (other_error "Retained output exceeds the configured entry limit")
  ok (record quota {
    bytes_by_reference = set reference bytes quota.bytes_by_reference;
    total_bytes = quota.total_bytes + bytes;
  })

unfoldable pub release : RetainedByteQuota → String → RetainedByteQuota
release quota reference = elim (get reference quota.bytes_by_reference) [
  | none ↦ quota
  | some retained ↦ record quota {
    total_bytes = quota.total_bytes - retained;
    bytes_by_reference = delete reference quota.bytes_by_reference;
  }
]
