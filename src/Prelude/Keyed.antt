-- ===== src/Prelude/Keyed.antt =====
-- A JavaScript `Map` with text keys: the entries in insertion order. Setting a key that is there
-- keeps its place.
use Prim.Native.Nat.{suc, ◌≤◌}
use Prim.Native.String.{String}
use mathlib.Core.Path.{◌≡◌, refl}
use mathlib.Core.Bool.{Bool, true, false}
use mathlib.Core.Option.{Option, none, some}
use mathlib.Core.List.{List, [], ◌∷◌}
use native.Mathlib.Omega.{arith}
use text.Mathlib.Text.{◌==◌ as str_eq}
use text.Mathlib.TextEquality.{eq_iff}
use enhanced_ssh.Prelude.Tests.{if◌then◌else◌}
use enhanced_ssh.Prelude.Lists.{length}

module _ {ℓ} {A : Type ℓ} where
  unfoldable pub get : String → List (String × A) → Option A
  get key [] = none
  get key ((k, a) ∷ rest) = if str_eq k key then some a else get key rest

  abbrev pub has_key : String → List (String × A) → Bool
  has_key key entries = elim (get key entries) [ none ↦ false | some a ↦ true ]

  unfoldable pub set : String → A → List (String × A) → List (String × A)
  set key a [] = (key, a) ∷ []
  set key a ((k, b) ∷ rest) = if str_eq k key then (k, a) ∷ rest else (k, b) ∷ set key a rest

  unfoldable pub delete : String → List (String × A) → List (String × A)
  delete key [] = []
  delete key ((k, a) ∷ rest) = if str_eq k key then rest else (k, a) ∷ delete key rest

  pub get-set : (key : String) (a : A) (m : List (String × A)) → get key (set key a m) ≡ some a
  unfolding get set
  get-set key a [] = ground (arith, eq_iff key key)
  get-set key a ((k, b) ∷ rest) = ground (arith, get-set key a rest)

  pub get-set_other :
      (key other : String) (a : A) (m : List (String × A))
      → str_eq key other ≡ false
      → get other (set key a m) ≡ get other m
  unfolding get set
  get-set_other key other a [] apart = rw apart refl
  get-set_other key other a ((k, b) ∷ rest) apart =
      ground (arith, eq_iff k key, eq_iff k other, eq_iff key other, get-set_other key other a rest)

  pub get-delete_other :
      (key other : String) (m : List (String × A))
      → str_eq key other ≡ false
      → get other (delete key m) ≡ get other m
  unfolding get delete
  get-delete_other key other [] apart = refl
  get-delete_other key other ((k, b) ∷ rest) apart =
      ground
        (arith, eq_iff k key, eq_iff k other, eq_iff key other, get-delete_other key other rest)

  -- Deleting a key that was set anew restores the map.
  pub delete-set :
      (key : String) (a : A) (m : List (String × A))
      → get key m ≡ none
      → delete key (set key a m) ≡ m
  unfolding get set delete
  delete-set key a [] absent = ground (arith, eq_iff key key)
  delete-set key a ((k, b) ∷ rest) absent = ground (arith, delete-set key a rest)

  pub delete_absent : (key : String) (m : List (String × A)) → get key m ≡ none → delete key m ≡ m
  unfolding get delete
  delete_absent key [] absent = refl
  delete_absent key ((k, b) ∷ rest) absent = ground (arith, delete_absent key rest)

  pub length-set_new :
      (key : String) (a : A) (m : List (String × A))
      → get key m ≡ none
      → length (set key a m) ≡ suc (length m)
  unfolding get set
  length-set_new key a [] absent = refl
  length-set_new key a ((k, b) ∷ rest) absent = ground (arith, length-set_new key a rest)

  pub length-set :
      (key : String) (a b : A) (m : List (String × A))
      → get key m ≡ some b
      → length (set key a m) ≡ length m
  unfolding get set
  length-set key a b [] present = absurd (ground arith)
  length-set key a b ((k, c) ∷ rest) present = ground (arith, length-set key a b rest)

  pub length-delete : (key : String) (m : List (String × A)) → length (delete key m) ≤ length m
  unfolding delete
  length-delete key [] = omega arith
  length-delete key ((k, b) ∷ rest) = ground (arith, length-delete key rest)
