-- ===== src/Redact/Secrecy.antt =====
-- What a copy holds under a sensitive key.
use enhanced_ssh.Prelude.{
  ℕ, zero, suc, Bool, true, false, not, ◌&&◌, ◌||◌, String, List, [], ◌∷◌, Option, ◌≡◌, refl, subst,
  ltb, leb, ◌==◌, any, Bool-cases, inl, inr, arith, str_eq, eq_iff,
}
use mathlib.Core.Option.{get_or as or_else}
use enhanced_ssh.RollingLog.{max_safe_integer}
use enhanced_ssh.Result.{ok, require-ok, ok-injective}
use enhanced_ssh.Redact.{redacted, is_sensitive_key}
use enhanced_ssh.Redact.Walk.{
  Value, Property, HeapObject, Copy, Copies, Members, Walk, Runtime, Visitor, visit_items,
  visit_value, visit_members, visit_object, visit_kind, visit, redact, string, primitive, null,
  undefined, bigint, function_or_symbol, date, binary, error, reference, data_property, accessor,
  array, plain_object, foreign_object, text, kept, nothing, items, entries, end, item, close,
  member,
}

-- Whether a copy is the text that stands for what is hidden.
abbrev pub is_hidden : {P : Type 0} → Copy P → Bool
is_hidden (text value) = str_eq value redacted
is_hidden (kept value) = false
is_hidden nothing = false
is_hidden (items copies) = false
is_hidden (entries members) = false

module _ {P : Type 0} where
  unfoldable mutual
    -- Under every sensitive key, at any depth, stands the text that hides.
    pub hides : (String → String) → Copy P → Bool
    hides lower (text value) = true
    hides lower (kept value) = true
    hides lower nothing = true
    hides lower (items copies) = hides_items lower copies
    hides lower (entries members) = hides_members lower members

    pub hides_items : (String → String) → Copies P → Bool
    hides_items lower end = true
    hides_items lower (item copy copies) = hides lower copy && hides_items lower copies

    pub hides_members : (String → String) → Members P → Bool
    hides_members lower close = true
    hides_members lower (member key copy members) =
        (not (is_sensitive_key lower key) || is_hidden copy)
        && (hides lower copy && hides_members lower members)

module _ {P : Type 0} (runtime : Runtime) where
  Hides : Visitor P → Type 0
  Hides visit = (walk : Walk) (value : Value P) → hides runtime.lower (visit walk value).0 ≡ true

  visit_items-Hides :
      (visit : Visitor P)
      → Hides visit
      → (walk : Walk) (values : List (Value P))
      → hides_items runtime.lower (visit_items runtime visit walk values).0 ≡ true
  unfolding Hides hides hides_items visit_items
  visit_items-Hides visit h walk [] = refl
  visit_items-Hides visit h walk (value ∷ values) =
      ground (arith, h walk value, visit_items-Hides visit h (visit walk value).1 values)

  visit_value-Hides :
      (visit : Visitor P)
      → Hides visit
      → (walk : Walk) (key : String) (value : Value P)
      → ((not (is_sensitive_key runtime.lower key)
            || is_hidden (visit_value runtime visit walk key value).0)
          && hides runtime.lower (visit_value runtime visit walk key value).0)
        ≡ true
  unfolding Hides hides visit_value
  visit_value-Hides visit h walk key value =
      elim (Bool-cases (is_sensitive_key runtime.lower key)) [
        | inl sensitive ↦ rw sensitive refl
        | inr plain ↦ rw plain (h walk value)
      ]

  visit_members-Hides :
      (visit : Visitor P)
      → Hides visit
      → (walk : Walk) (properties : List (String × Property P))
      → hides_members runtime.lower (visit_members runtime visit walk properties).0 ≡ true
  unfolding hides hides_members visit_members
  visit_members-Hides visit h walk [] = refl
  visit_members-Hides visit h walk ((key, data_property false value) ∷ properties) =
      visit_members-Hides visit h walk properties
  visit_members-Hides visit h walk ((key, accessor false) ∷ properties) =
      visit_members-Hides visit h walk properties
  visit_members-Hides visit h walk ((key, accessor true) ∷ properties) =
      ground (arith, eq_iff redacted redacted, visit_members-Hides visit h walk properties)
  visit_members-Hides visit h walk ((key, data_property true value) ∷ properties) = ground (
    arith,
    visit_value-Hides visit h walk key value,
    visit_members-Hides visit h (visit_value runtime visit walk key value).1 properties,
  )

  visit_object-Hides :
      (visit : Visitor P)
      → Hides visit
      → (walk : Walk) (object : HeapObject P)
      → hides runtime.lower (visit_object runtime visit walk object).0 ≡ true
  unfolding hides visit_object
  visit_object-Hides visit h walk (array values) = visit_items-Hides visit h walk values
  visit_object-Hides visit h walk (plain_object properties) =
      visit_members-Hides visit h walk properties
  visit_object-Hides visit h walk foreign_object = refl

  visit_kind-Hides :
      (heap : ℕ → HeapObject P) (visit : Visitor P)
      → Hides visit
      → Hides (visit_kind runtime heap visit)
  unfolding Hides hides visit_kind
  visit_kind-Hides heap visit h walk (string value) = refl
  visit_kind-Hides heap visit h walk (primitive value) = refl
  visit_kind-Hides heap visit h walk null = refl
  visit_kind-Hides heap visit h walk undefined = refl
  visit_kind-Hides heap visit h walk (bigint digits) = refl
  visit_kind-Hides heap visit h walk function_or_symbol = refl
  visit_kind-Hides heap visit h walk (date iso) = refl
  visit_kind-Hides heap visit h walk binary = refl
  visit_kind-Hides heap visit h walk error = refl
  visit_kind-Hides heap visit h walk (reference id) =
      elim (Bool-cases (any (λ other. other == id) walk.seen)) [
        | inl again ↦ rw again refl
        | inr first ↦
            rw first (visit_object-Hides visit h (record walk { seen = id ∷ walk.seen }) (heap id))
      ]

  visit-Hides :
      (heap : ℕ → HeapObject P) (max_entries levels : ℕ)
      → Hides (visit runtime heap max_entries levels)
  unfolding Hides hides visit
  visit-Hides heap max_entries zero walk value = refl
  visit-Hides heap max_entries (suc levels) walk value =
      elim (Bool-cases (ltb max_entries (suc walk.count))) [
        | inl over ↦ rw over refl
        | inr within ↦ rw within (
            visit_kind-Hides heap (visit runtime heap max_entries levels)
              (visit-Hides heap max_entries levels) (record walk { count = suc walk.count }) value)
      ]

  -- In the copy of any value, however it refers to itself, the text that hides stands under every
  -- sensitive key, at any depth: nothing that such a key held gets through.
  pub redact-hides :
      (heap : ℕ → HeapObject P) (value : Value P) (max_depth max_entries : Option ℕ) (copy : Copy P)
      → redact runtime heap value max_depth max_entries ≡ ok copy
      → hides runtime.lower copy ≡ true
  unfolding redact Hides
  redact-hides heap value max_depth max_entries copy e =
      let depth = or_else max_depth 12 in
      let limit = or_else max_entries 10000 in
      let (depth_fits, s1) = require-ok (leb depth max_safe_integer) _ _ e in
      let (limit_fits, s2) = require-ok (leb limit max_safe_integer && leb 1 limit) _ _ s1 in
      subst (λ c. hides runtime.lower c ≡ true) (ok-injective s2)
        (visit-Hides heap limit (suc depth) (record { count = 0; seen = [] }) value)
