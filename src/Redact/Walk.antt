-- ===== src/Redact/Walk.antt =====
-- `redact` of src/infra/redact.ts: its `visit` over a heap.
use enhanced_ssh.Prelude.{
  ℕ, zero, suc, Bool, true, false, ◌&&◌, String, List, [], ◌∷◌, Option, none, some, ltb, leb, ◌==◌,
  if◌then◌else◌, any,
}
use mathlib.Core.Option.{get_or as or_else}
use enhanced_ssh.Errors.{range_error}
use enhanced_ssh.Result.{Result, ok, ◌>>◌, require}
use enhanced_ssh.RollingLog.{max_safe_integer}
use enhanced_ssh.Redact.{
  redacted, redacted_binary, redacted_circular, redacted_truncated, is_sensitive_key,
}

-- A value; `P` is the type of the numbers and the Booleans. A date has its ISO text, if it is valid; a
-- reference is to an array or an object of the heap.
pub data Value (P : Type 0) : Type 0 where
  string : String → Value P
  primitive : P → Value P
  null undefined : Value P
  bigint : String → Value P
  function_or_symbol : Value P
  date : Option String → Value P
  binary error : Value P
  reference : ℕ → Value P

-- An own property: a value, or an accessor.
pub data Property (P : Type 0) : Type 0 where
  data_property : Bool → Value P → Property P
  accessor : Bool → Property P

-- The last one has another prototype than a plain object.
pub data HeapObject (P : Type 0) : Type 0 where
  array : List (Value P) → HeapObject P
  plain_object : List (String × Property P) → HeapObject P
  foreign_object : HeapObject P

-- The copy.
mutual
  pub data Copy (P : Type 0) : Type 0 where
    text : String → Copy P
    kept : P → Copy P
    nothing : Copy P
    items : Copies P → Copy P
    entries : Members P → Copy P

  pub data Copies (P : Type 0) : Type 0 where
    end : Copies P
    item : Copy P → Copies P → Copies P

  pub data Members (P : Type 0) : Type 0 where
    close : Members P
    member : String → Copy P → Members P → Members P

-- `entries` and `seen`.
pub record Walk : Type 0 where
  pub count : ℕ
  pub seen : List ℕ

-- `redactText` and `toLowerCase`.
pub record Runtime : Type 0 where
  pub redact_text : String → String
  pub lower : String → String

abbrev pub Visitor : Type 0 → Type 0
Visitor P = Walk → Value P → Copy P × Walk

abbrev pub date_text : Option String → String
date_text none = redacted
date_text (some iso) = iso

module _ {P : Type 0} (runtime : Runtime) where
  -- current.map(...)
  unfoldable pub visit_items : Visitor P → Walk → List (Value P) → Copies P × Walk
  visit_items visit walk [] = (end, walk)
  visit_items visit walk (value ∷ values) =
      let (copy, after) = visit walk value in
      let (copies, last) = visit_items visit after values in (item copy copies, last)

  -- The copy under a key of which the property is enumerable.
  unfoldable pub visit_value : Visitor P → Walk → String → Value P → Copy P × Walk
  visit_value visit walk key value =
      let visited = visit walk value in
      if is_sensitive_key runtime.lower key then (text redacted, walk) else visited

  -- A member is kept under every key; that the source's assignment to a key `__proto__` sets the
  -- prototype of the copy, and adds no member, is not modelled.
  unfoldable pub visit_members : Visitor P → Walk → List (String × Property P) → Members P × Walk
  visit_members visit walk [] = (close, walk)
  visit_members visit walk ((key, data_property false value) ∷ properties) =
      visit_members visit walk properties
  visit_members visit walk ((key, accessor false) ∷ properties) =
      visit_members visit walk properties
  visit_members visit walk ((key, accessor true) ∷ properties) =
      let (members, last) = visit_members visit walk properties in
      (member key (text redacted) members, last)
  visit_members visit walk ((key, data_property true value) ∷ properties) =
      let (copy, after) = visit_value visit walk key value in
      let (members, last) = visit_members visit after properties in (member key copy members, last)

  -- An object that is not seen yet.
  unfoldable pub visit_object : Visitor P → Walk → HeapObject P → Copy P × Walk
  visit_object visit walk (array values) =
      let (copies, last) = visit_items visit walk values in (items copies, last)
  visit_object visit walk (plain_object properties) =
      let (members, last) = visit_members visit walk properties in (entries members, last)
  visit_object visit walk foreign_object = (text redacted, walk)

  -- The branches of `visit` after the test of the limits, with the visitor of what an object holds.
  unfoldable pub visit_kind : (ℕ → HeapObject P) → Visitor P → Walk → Value P → Copy P × Walk
  visit_kind heap visit walk (string value) = (text (runtime.redact_text value), walk)
  visit_kind heap visit walk (primitive value) = (kept value, walk)
  visit_kind heap visit walk null = (nothing, walk)
  visit_kind heap visit walk undefined = (nothing, walk)
  visit_kind heap visit walk (bigint digits) = (text digits, walk)
  visit_kind heap visit walk function_or_symbol = (text redacted, walk)
  visit_kind heap visit walk (date iso) = (text (date_text iso), walk)
  visit_kind heap visit walk binary = (text redacted_binary, walk)
  visit_kind heap visit walk error = (text redacted, walk)
  visit_kind heap visit walk (reference id) =
      let inside = visit_object visit (record walk { seen = id ∷ walk.seen }) (heap id) in
      if any (λ other. other == id) walk.seen then (text redacted_circular, walk) else inside

  -- `visit` with `levels` for the depths that are left, through the last one that is allowed; a value
  -- that is deeper is counted and cut.
  unfoldable pub visit : (ℕ → HeapObject P) → ℕ → ℕ → Walk → Value P → Copy P × Walk
  visit heap max_entries zero walk value =
      (text redacted_truncated, record walk { count = suc walk.count })
  visit heap max_entries (suc levels) walk value =
      let counted : Walk = record walk { count = suc walk.count } in
      let visited = visit_kind heap (visit heap max_entries levels) counted value in
      if ltb max_entries counted.count then (text redacted_truncated, counted) else visited

  -- The depths run from 0 through maxDepth.
  unfoldable pub redact : (ℕ → HeapObject P) → Value P → Option ℕ → Option ℕ → Result (Copy P)
  redact heap value max_depth max_entries =
      let depth = or_else max_depth 12 in
      let limit = or_else max_entries 10000 in
      require (leb depth max_safe_integer)
        (range_error "maxDepth must be a non-negative safe integer")
      >> (require (leb limit max_safe_integer && leb 1 limit)
            (range_error "maxEntries must be a positive safe integer")
          >> ok (visit heap limit (suc depth) (record { count = 0; seen = [] }) value).0)
