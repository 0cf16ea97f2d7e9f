-- ===== src/Redact/Bounds.antt =====
-- How large a copy can get.
use enhanced_ssh.Prelude.{
  ℕ, zero, suc, ◌≤◌, true, false, ◌&&◌, String, List, [], ◌∷◌, Option, ◌≡◌, subst, ltb, leb, ◌==◌,
  any, Bool-cases, inl, inr, arith, max,
}
use mathlib.Core.Option.{get_or as or_else}
use enhanced_ssh.RollingLog.{max_safe_integer}
use enhanced_ssh.Result.{ok, require-ok, ok-injective}
use enhanced_ssh.Redact.{is_sensitive_key}
use enhanced_ssh.Redact.Walk.{
  Value, Property, HeapObject, Copy, Copies, Members, Walk, Runtime, Visitor, visit_items,
  visit_value, visit_members, visit_object, visit_kind, visit, redact, string, primitive, null,
  undefined, bigint, function_or_symbol, date, binary, error, reference, data_property, accessor,
  array, plain_object, foreign_object, text, kept, nothing, items, entries, end, item, close,
  member,
}

module _ {P : Type 0} where
  unfoldable mutual
    -- How deep a copy is: a copy that holds no other one is at depth 0.
    pub depth : Copy P → ℕ
    depth (text value) = 0
    depth (kept value) = 0
    depth nothing = 0
    depth (items copies) = depth_items copies
    depth (entries members) = depth_members members

    pub depth_items : Copies P → ℕ
    depth_items end = 0
    depth_items (item copy copies) = max (suc (depth copy)) (depth_items copies)

    pub depth_members : Members P → ℕ
    depth_members close = 0
    depth_members (member key copy members) = max (suc (depth copy)) (depth_members members)

module _ {P : Type 0} (runtime : Runtime) where
  Within : ℕ → Visitor P → Type 0
  Within levels visit = (walk : Walk) (value : Value P) → depth (visit walk value).0 ≤ levels

  visit_items-depth :
      (levels : ℕ) (visit : Visitor P)
      → Within levels visit
      → (walk : Walk) (values : List (Value P))
      → depth_items (visit_items runtime visit walk values).0 ≤ suc levels
  unfolding Within depth depth_items visit_items
  visit_items-depth levels visit h walk [] = omega arith
  visit_items-depth levels visit h walk (value ∷ values) =
      omega (arith, h walk value, visit_items-depth levels visit h (visit walk value).1 values)

  visit_value-depth :
      (levels : ℕ) (visit : Visitor P)
      → Within levels visit
      → (walk : Walk) (key : String) (value : Value P)
      → depth (visit_value runtime visit walk key value).0 ≤ levels
  unfolding Within depth visit_value
  visit_value-depth levels visit h walk key value =
      elim (Bool-cases (is_sensitive_key runtime.lower key)) [
        | inl sensitive ↦ rw sensitive (omega arith)
        | inr plain ↦ rw plain (h walk value)
      ]

  visit_members-depth :
      (levels : ℕ) (visit : Visitor P)
      → Within levels visit
      → (walk : Walk) (properties : List (String × Property P))
      → depth_members (visit_members runtime visit walk properties).0 ≤ suc levels
  unfolding depth depth_members visit_members
  visit_members-depth levels visit h walk [] = omega arith
  visit_members-depth levels visit h walk ((key, data_property false value) ∷ properties) =
      visit_members-depth levels visit h walk properties
  visit_members-depth levels visit h walk ((key, accessor false) ∷ properties) =
      visit_members-depth levels visit h walk properties
  visit_members-depth levels visit h walk ((key, accessor true) ∷ properties) =
      omega (arith, visit_members-depth levels visit h walk properties)
  visit_members-depth levels visit h walk ((key, data_property true value) ∷ properties) = omega (
    arith,
    visit_value-depth levels visit h walk key value,
    visit_members-depth levels visit h (visit_value runtime visit walk key value).1 properties,
  )

  visit_kind-depth :
      (heap : ℕ → HeapObject P) (levels : ℕ) (visit : Visitor P)
      → Within levels visit
      → Within (suc levels) (visit_kind runtime heap visit)
  unfolding Within depth visit_kind visit_object
  visit_kind-depth heap levels visit h walk (string value) = omega arith
  visit_kind-depth heap levels visit h walk (primitive value) = omega arith
  visit_kind-depth heap levels visit h walk null = omega arith
  visit_kind-depth heap levels visit h walk undefined = omega arith
  visit_kind-depth heap levels visit h walk (bigint digits) = omega arith
  visit_kind-depth heap levels visit h walk function_or_symbol = omega arith
  visit_kind-depth heap levels visit h walk (date iso) = omega arith
  visit_kind-depth heap levels visit h walk binary = omega arith
  visit_kind-depth heap levels visit h walk error = omega arith
  visit_kind-depth heap levels visit h walk (reference id) =
      elim (Bool-cases (any (λ other. other == id) walk.seen)) [
        | inl again ↦ rw again (omega arith)
        | inr first ↦ rw first (held (record walk { seen = id ∷ walk.seen }) (heap id))
      ]
    where
      held :
          (inner : Walk) (object : HeapObject P)
          → depth (visit_object runtime visit inner object).0 ≤ suc levels
      held inner (array values) = visit_items-depth levels visit h inner values
      held inner (plain_object properties) = visit_members-depth levels visit h inner properties
      held inner foreign_object = omega arith

  visit-depth :
      (heap : ℕ → HeapObject P) (max_entries levels : ℕ)
      → Within levels (visit runtime heap max_entries levels)
  unfolding Within depth visit
  visit-depth heap max_entries zero walk value = omega arith
  visit-depth heap max_entries (suc levels) walk value =
      elim (Bool-cases (ltb max_entries (suc walk.count))) [
        | inl over ↦ rw over (omega arith)
        | inr within ↦ rw within (
            visit_kind-depth heap levels (visit runtime heap max_entries levels)
              (visit-depth heap max_entries levels) (record walk { count = suc walk.count }) value)
      ]

  -- The copy of any value, however it refers to itself, is no deeper than one level more than the
  -- depth asked for, or than thirteen levels when none is asked for: what lies deeper is cut.
  pub redact-depth :
      (heap : ℕ → HeapObject P) (value : Value P) (max_depth max_entries : Option ℕ) (copy : Copy P)
      → redact runtime heap value max_depth max_entries ≡ ok copy
      → depth copy ≤ suc (or_else max_depth 12)
  unfolding redact Within
  redact-depth heap value max_depth max_entries copy e =
      let levels = or_else max_depth 12 in
      let limit = or_else max_entries 10000 in
      let (depth_fits, s1) = require-ok (leb levels max_safe_integer) _ _ e in
      let (limit_fits, s2) = require-ok (leb limit max_safe_integer && leb 1 limit) _ _ s1 in
      subst (λ c. depth c ≤ suc levels) (ok-injective s2)
        (visit-depth heap limit (suc levels) (record { count = 0; seen = [] }) value)
