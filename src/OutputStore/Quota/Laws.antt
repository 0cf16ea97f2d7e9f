-- ===== src/OutputStore/Quota/Laws.antt =====
-- The account of the retained bytes: its books balance and stay within the limits.
use enhanced_ssh.Prelude.{
  ℕ, ◌+◌, ◌-◌, ◌≤◌, ◌<◌, min, true, false, String, List, [], ◌∷◌, none, some, ◌≡◌, refl, ◌⊎◌, inl,
  inr, arith, ltb, str_eq, Bool-cases, Option-cases, length, get, has_key, set, delete, get-set,
  get-set_other, delete-set, length-set_new, length-set, length-delete,
}
use enhanced_ssh.Result.{ok}
use enhanced_ssh.OutputStore.Quota.{
  RetainedByteQuota, create, held, book, reserve, track_existing, release,
}

-- The bytes of all the entries.
unfoldable pub sum : List (String × ℕ) → ℕ
sum [] = 0
sum ((k, n) ∷ rest) = n + sum rest

sum-set :
    (key : String) (n : ℕ) (m : List (String × ℕ)) → sum (set key (held key m + n) m) ≡ sum m + n
unfolding sum set get
sum-set key n [] = omega arith
sum-set key n ((k, b) ∷ rest) = ground (arith, sum-set key n rest)

sum-delete :
    (key : String) (n : ℕ) (m : List (String × ℕ))
    → get key m ≡ some n
    → sum (delete key m) + n ≡ sum m
unfolding sum delete get
sum-delete key n [] present = absurd (ground arith)
sum-delete key n ((k, b) ∷ rest) present = ground (arith, sum-delete key n rest)

-- The total is what the entries hold, and both limits are respected.
pub record Balanced (q : RetainedByteQuota) : Type 0 where
  pub total : q.total_bytes ≡ sum q.bytes_by_reference
  pub bytes : q.total_bytes ≤ q.max_bytes
  pub entries : length q.bytes_by_reference ≤ q.max_entries

pub create-Balanced : (max_bytes max_entries : ℕ) → Balanced (create max_bytes max_entries)
unfolding create sum
create-Balanced max_bytes max_entries = record {
  total = refl;
  bytes = omega arith;
  entries = omega arith;
}

-- Setting a reference adds an entry only if it was not there.
length-set_held :
    (key : String) (n limit : ℕ) (m : List (String × ℕ))
    → (has_key key m ≡ true) ⊎ (length m < limit)
    → length m ≤ limit
    → length (set key n m) ≤ limit
length-set_held key n limit m room fits = elim (Option-cases (get key m)) [
  | inl absent ↦
      let below : length m < limit = elim room [ inl there ↦ absurd (ground arith) | inr l ↦ l ] in
      omega (arith, length-set_new key n m absent)
  | inr (b, present) ↦ omega (arith, length-set key n b m present)
]

book-Balanced :
    (q : RetainedByteQuota) (reference : String) (granted : ℕ)
    → granted ≤ q.max_bytes - q.total_bytes
    → (has_key reference q.bytes_by_reference ≡ true)
      ⊎ (length q.bytes_by_reference < q.max_entries)
    → Balanced q
    → Balanced (book reference granted q)
unfolding book
book-Balanced q reference granted fits room h = record {
  total = omega (arith, h.total, sum-set reference granted q.bytes_by_reference);
  bytes = omega (arith, h.bytes);
  entries =
      length-set_held reference (held reference q.bytes_by_reference + granted) q.max_entries
        q.bytes_by_reference room h.entries;
}

-- `reserve` either leaves the quota as it is and grants nothing, or books what it grants.
pub reserve-cases :
    (q : RetainedByteQuota) (reference : String) (requested : ℕ)
    → let (r, after) = reserve q reference requested in
      ((r.granted_bytes ≡ 0) × (after ≡ q))
      ⊎ ((r.granted_bytes ≤ q.max_bytes - q.total_bytes)
          × (r.granted_bytes ≤ requested)
          × (after ≡ book reference r.granted_bytes q)
          × ((has_key reference q.bytes_by_reference ≡ true)
              ⊎ (length q.bytes_by_reference < q.max_entries)))
unfolding reserve
reserve-cases q reference requested =
    ground (arith, Bool-cases (ltb 0 (min requested (q.max_bytes - q.total_bytes))))

pub reserve-Balanced :
    (q : RetainedByteQuota) (reference : String) (requested : ℕ)
    → Balanced q
    → Balanced (reserve q reference requested).1
reserve-Balanced q reference requested h = elim (reserve-cases q reference requested) [
  | inl (nothing, same) ↦ rw same h
  | inr (fits, asked, booked, room) ↦ rw booked (book-Balanced q reference _ fits room h)
]

pub track-ok :
    (q q' : RetainedByteQuota) (reference : String) (bytes : ℕ)
    → track_existing q reference bytes ≡ ok q'
    → (get reference q.bytes_by_reference ≡ none)
      × (bytes ≤ q.max_bytes - q.total_bytes)
      × (length q.bytes_by_reference < q.max_entries)
      × (q' ≡ book reference bytes q)
unfolding track_existing book
track-ok q q' reference bytes e = ground (arith, Option-cases (get reference q.bytes_by_reference))

pub track-Balanced :
    (q q' : RetainedByteQuota) (reference : String) (bytes : ℕ)
    → track_existing q reference bytes ≡ ok q'
    → Balanced q
    → Balanced q'
track-Balanced q q' reference bytes e h =
    let (new, fits, room, booked) = track-ok q q' reference bytes e in
    rw booked (book-Balanced q reference bytes fits (inr room) h)

pub release-Balanced :
    (q : RetainedByteQuota) (reference : String) → Balanced q → Balanced (release q reference)
unfolding release
release-Balanced q reference h = elim (Option-cases (get reference q.bytes_by_reference)) [
  | inl absent ↦ rw (absent, release) h
  | inr (n, present) ↦
      rw (present, release)
        (record {
          total = omega (arith, h.total, sum-delete reference n q.bytes_by_reference present);
          bytes = omega (arith, h.bytes);
          entries = omega (arith, h.entries, length-delete reference q.bytes_by_reference);
        })
]

-- What happens to a quota.
pub data Step (q : RetainedByteQuota) : RetainedByteQuota → Type 0 where
  reserves : (reference : String) (requested : ℕ) → Step q (reserve q reference requested).1
  tracks :
      (reference : String) (bytes : ℕ) (q' : RetainedByteQuota)
      → track_existing q reference bytes ≡ ok q'
      → Step q q'
  releases : (reference : String) → Step q (release q reference)

pub data Reach (q : RetainedByteQuota) : RetainedByteQuota → Type 0 where
  here : Reach q q
  next : {u v : RetainedByteQuota} → Reach q u → Step u v → Reach q v

Step-Balanced : {q q' : RetainedByteQuota} → Step q q' → Balanced q → Balanced q'
Step-Balanced {q} (reserves reference requested) h = reserve-Balanced q reference requested h
Step-Balanced {q} (tracks reference bytes q' e) h = track-Balanced q q' reference bytes e h
Step-Balanced {q} (releases reference) h = release-Balanced q reference h

-- After any calls on a new quota, the total is the sum of what the entries hold, and neither the
-- total nor the number of entries is over its limit.
pub Reach-create-Balanced :
    (max_bytes max_entries : ℕ) (q : RetainedByteQuota)
    → Reach (create max_bytes max_entries) q
    → Balanced q
Reach-create-Balanced max_bytes max_entries q here = create-Balanced max_bytes max_entries
Reach-create-Balanced max_bytes max_entries q (next r st) =
    Step-Balanced st (Reach-create-Balanced max_bytes max_entries _ r)

held-book :
    (q : RetainedByteQuota) (reference : String) (granted : ℕ)
    → held reference (book reference granted q).bytes_by_reference
      ≡ held reference q.bytes_by_reference + granted
unfolding book
held-book q reference granted =
    rw (get-set reference (held reference q.bytes_by_reference + granted) q.bytes_by_reference) refl

held_other-book :
    (q : RetainedByteQuota) (reference other : String) (granted : ℕ)
    → str_eq reference other ≡ false
    → held other (book reference granted q).bytes_by_reference ≡ held other q.bytes_by_reference
unfolding book
held_other-book q reference other granted apart =
    rw
      (get-set_other reference other (held reference q.bytes_by_reference + granted)
        q.bytes_by_reference apart)
      refl

total-book :
    (q : RetainedByteQuota) (reference : String) (granted : ℕ)
    → (book reference granted q).total_bytes ≡ q.total_bytes + granted
unfolding book
total-book q reference granted = refl

release_absent :
    (q : RetainedByteQuota) (reference : String)
    → get reference q.bytes_by_reference ≡ none
    → release q reference ≡ q
unfolding release
release_absent q reference new = rw (new, release) refl

release-book :
    (q : RetainedByteQuota) (reference : String) (granted : ℕ)
    → get reference q.bytes_by_reference ≡ none
    → release (book reference granted q) reference ≡ q
unfolding release book
release-book q reference granted new =
    let kept = held reference q.bytes_by_reference + granted in
    rw (get-set reference kept q.bytes_by_reference, release)
      (ground (arith, delete-set reference kept q.bytes_by_reference))

-- A reservation is booked under its reference, byte for byte, and under no other.
pub reserve-held :
    (q : RetainedByteQuota) (reference other : String) (requested : ℕ)
    → str_eq reference other ≡ false
    → let (r, after) = reserve q reference requested in
      (held reference after.bytes_by_reference
        ≡ held reference q.bytes_by_reference + r.granted_bytes)
      × (held other after.bytes_by_reference ≡ held other q.bytes_by_reference)
      × (after.total_bytes ≡ q.total_bytes + r.granted_bytes)
      × (r.granted_bytes ≤ requested)
reserve-held q reference other requested apart = elim (reserve-cases q reference requested) [
  | inl (nothing, same) ↦ rw (same, nothing) (omega arith, refl, omega arith, omega arith)
  | inr (fits, asked, booked, room) ↦ rw booked (
    held-book q reference _,
    held_other-book q reference other _ apart,
    total-book q reference _,
    asked,
  )
]

-- Releasing a reference that was reserved for the first time restores the quota.
pub release-reserve :
    (q : RetainedByteQuota) (reference : String) (requested : ℕ)
    → get reference q.bytes_by_reference ≡ none
    → release (reserve q reference requested).1 reference ≡ q
release-reserve q reference requested new = elim (reserve-cases q reference requested) [
  | inl (nothing, same) ↦ rw same (release_absent q reference new)
  | inr (fits, asked, booked, room) ↦ rw booked (release-book q reference _ new)
]
