-- ===== src/TargetRegistry/IndexLaws.antt =====
-- The index of a registry: every reference finds the target that was configured with it.
use enhanced_ssh.Prelude.{
  false, String, List, [], ◌∷◌, none, some, ◌≡◌, refl, sym, ◌∙◌, ◌⊎◌, inl, inr, arith, str_eq,
  eq_iff, subst, Bool-cases, Option-cases, get, set, get-set, get-set_other,
}
use mathlib.Core.List.{Memᴰ}
use mathlib.Core.List.Memᴰ
use enhanced_ssh.Result.{ok, Result-cases}
use enhanced_ssh.TargetRegistry.Types.{TargetConfig, RegistryEntry, Runtime}
use enhanced_ssh.TargetRegistry.Index.{
  TargetRegistry, create_entry, references_of, add_references, register, create,
}

module _ {S : Type 0} (runtime : Runtime) where
  -- What the references of one entry did to the index: each is found now, the old ones are as they
  -- were, and no other is new.
  record Added (entry : RegistryEntry S) (names : List String)
      (old new : List (String × RegistryEntry S)) : Type 0 where
    found : (name : String) → Memᴰ name names → get (runtime.lower name) new ≡ some entry
    kept : (key : String) (e : RegistryEntry S) → get key old ≡ some e → get key new ≡ some e
    origin :
        (key : String) (e : RegistryEntry S)
        → get key new ≡ some e
        → (get key old ≡ some e)
          ⊎ ((e ≡ entry) × (name : String) × Memᴰ name names × (key ≡ runtime.lower name))

  add-once :
      (name : String) (rest : List String) (entry : RegistryEntry S)
      (old new : List (String × RegistryEntry S))
      → add_references runtime (name ∷ rest) entry old ≡ ok new
      → (get (runtime.lower name) old ≡ none)
        × (add_references runtime rest entry (set (runtime.lower name) entry old) ≡ ok new)
  unfolding add_references
  add-once name rest entry old new e = ground (arith, Option-cases (get (runtime.lower name) old))

  add-none :
      (entry : RegistryEntry S) (old new : List (String × RegistryEntry S))
      → add_references runtime [] entry old ≡ ok new
      → new ≡ old
  unfolding add_references
  add-none entry old new e = ground arith

  add-Added :
      (names : List String) (entry : RegistryEntry S) (old new : List (String × RegistryEntry S))
      → add_references runtime names entry old ≡ ok new
      → Added entry names old new
  add-Added [] entry old new e =
      let same = add-none entry old new e in
      record {
        found = λ name i. absurd (Memᴰ.not-nil i);
        kept = λ key x h. rw same h;
        origin = λ key x h. inl (rw same at h);
      }
  add-Added (name ∷ rest) entry old new e =
      let (absent, again) = add-once name rest entry old new e in
      let h = add-Added rest entry (set (runtime.lower name) entry old) new again in
      let key_of : String = runtime.lower name in
      let apart : (key : String) (x : RegistryEntry S)
          → get key old ≡ some x
          → str_eq key_of key ≡ false =
        λ key x there. ground (arith, eq_iff key_of key) in
      record {
        found = λ n i. elim (Memᴰ.cases_cons i) [
          | inl same ↦ rw same (h.kept key_of entry (get-set key_of entry old))
          | inr deeper ↦ h.found n deeper
        ];
        kept = λ key x there.
            h.kept key x (get-set_other key_of key entry old (apart key x there) ∙ there);
        origin = λ key x there. elim (h.origin key x there) [
          | inl before ↦ elim (Bool-cases (str_eq key_of key)) [
            | inl same ↦
                let spelled : key_of ≡ key = (eq_iff key_of key).0 same in
                inr (ground (arith, get-set key_of entry old), name, Memᴰ.head refl, sym spelled)
            | inr other ↦ inl (sym (get-set_other key_of key entry old other) ∙ before)
          ]
          | inr (is_entry, n, i, spelled) ↦ inr (is_entry, n, Memᴰ.tail i, spelled)
        ];
      }

  -- An entry was configured under the reference: `alias` and `config` are the ones it was made of.
  pub record Configured (configs : List (String × TargetConfig S)) (key : String)
      (e : RegistryEntry S) : Type 0 where
    pub alias : String
    pub config : TargetConfig S
    pub listed : Memᴰ (alias, config) configs
    pub made : e ≡ create_entry runtime alias config
    pub name : String
    pub named : Memᴰ name (references_of runtime alias config)
    pub folded : key ≡ runtime.lower name

  -- An entry that a reference finds is filed under its alias, and was configured under it.
  pub record Indexed (configs : List (String × TargetConfig S))
      (entries references : List (String × RegistryEntry S)) : Type 0 where
    pub filed :
        (key : String) (e : RegistryEntry S)
        → get key references ≡ some e
        → (get e.target.alias entries ≡ some e)
          × (get (runtime.lower e.target.alias) references ≡ some e)
    pub origin :
        (key : String) (e : RegistryEntry S)
        → get key references ≡ some e
        → Configured configs key e

  create_entry-alias :
      (alias : String) (config : TargetConfig S)
      → (create_entry runtime alias config).target.alias ≡ alias
  unfolding create_entry
  create_entry-alias alias config = refl

  alias-in_references :
      (alias : String) (config : TargetConfig S) → Memᴰ alias (references_of runtime alias config)
  unfolding references_of
  alias-in_references alias config = Memᴰ.head refl

  alias-free :
      (alias : String) (config : TargetConfig S) (entry : RegistryEntry S)
      (old new : List (String × RegistryEntry S))
      → add_references runtime (references_of runtime alias config) entry old ≡ ok new
      → get (runtime.lower alias) old ≡ none
  unfolding references_of
  alias-free alias config entry old new e = (add-once alias _ entry old new e).0

  -- An entry that is found under its alias has another alias than a free one.
  other_alias :
      (alias : String) (x : RegistryEntry S) (old : List (String × RegistryEntry S))
      → get (runtime.lower alias) old ≡ none
      → get (runtime.lower x.target.alias) old ≡ some x
      → str_eq alias x.target.alias ≡ false
  other_alias alias x old absent back = elim (Bool-cases (str_eq alias x.target.alias)) [
    | inr other ↦ other
    | inl same ↦
        let equal : alias ≡ x.target.alias = (eq_iff alias x.target.alias).0 same in
        let taken : get (runtime.lower alias) old ≡ some x =
          subst (λ a. get (runtime.lower a) old ≡ some x) (sym equal) back in
        ground arith
  ]

  -- Filing one more target keeps the index.
  file-Indexed :
      (configs : List (String × TargetConfig S)) (alias : String) (config : TargetConfig S)
      (entries old new : List (String × RegistryEntry S))
      → Memᴰ (alias, config) configs
      → add_references runtime
          (references_of runtime alias config)
          (create_entry runtime alias config)
          old
        ≡ ok new
      → Indexed configs entries old
      → Indexed configs (set alias (create_entry runtime alias config) entries) new
  file-Indexed configs alias config entries old new listed e h =
      let entry = create_entry runtime alias config in
      let spelled = create_entry-alias alias config in
      let added = add-Added (references_of runtime alias config) entry old new e in
      let absent = alias-free alias config entry old new e in
      let mine : (get entry.target.alias (set alias entry entries) ≡ some entry)
          × (get (runtime.lower entry.target.alias) new ≡ some entry) =
        subst
          (λ a.
            (get a (set alias entry entries) ≡ some entry)
            × (get (runtime.lower a) new ≡ some entry))
          (sym spelled)
          (get-set alias entry entries, added.found alias (alias-in_references alias config)) in
      record {
        filed = λ key x there. elim (added.origin key x there) [
          | inl before ↦
              let (under, back) = h.filed key x before in
              let apart : str_eq alias x.target.alias ≡ false =
                other_alias alias x old absent back in
              (get-set_other alias x.target.alias entry entries apart ∙ under, added.kept _ x back)
          | inr (is_entry, n, i, from) ↦
              subst
                (λ y.
                  (get y.target.alias (set alias entry entries) ≡ some y)
                  × (get (runtime.lower y.target.alias) new ≡ some y))
                (sym is_entry) mine
        ];
        origin = λ key x there. elim (added.origin key x there) [
          | inl before ↦ h.origin key x before
          | inr (is_entry, n, i, from) ↦ record {
            alias = alias;
            config = config;
            listed = listed;
            made = is_entry;
            name = n;
            named = i;
            folded = from;
          }
        ];
      }

  register-once :
      (alias : String) (config : TargetConfig S) (rest : List (String × TargetConfig S))
      (entries old entries' new : List (String × RegistryEntry S))
      → register runtime ((alias, config) ∷ rest) entries old ≡ ok (entries', new)
      → (more : List (String × RegistryEntry S)) × (add_references runtime
            (references_of runtime alias config)
            (create_entry runtime alias config)
            old
          ≡ ok more)
        × (register runtime rest (set alias (create_entry runtime alias config) entries) more
            ≡ ok (entries', new))
  unfolding register
  register-once alias config rest entries old entries' new e =
      elim (Result-cases (
        add_references runtime (references_of runtime alias config)
          (create_entry runtime alias config) old)) [
            | inl (more, added) ↦ (more, added, (rw added at e))
            | inr (x, bad) ↦ absurd (ground arith)
          ]

  register-none :
      (entries old entries' new : List (String × RegistryEntry S))
      → register runtime [] entries old ≡ ok (entries', new)
      → (entries' ≡ entries) × (new ≡ old)
  unfolding register
  register-none entries old entries' new e = ground arith

  register-Indexed :
      (configs todo : List (String × TargetConfig S))
      (entries old entries' new : List (String × RegistryEntry S))
      → ((c : String × TargetConfig S) → Memᴰ c todo → Memᴰ c configs)
      → register runtime todo entries old ≡ ok (entries', new)
      → Indexed configs entries old
      → Indexed configs entries' new
        × ((key : String) (x : RegistryEntry S) → get key old ≡ some x → get key new ≡ some x)
        × ((alias : String) (config : TargetConfig S) (name : String)
            → Memᴰ (alias, config) todo
            → Memᴰ name (references_of runtime alias config)
            → get (runtime.lower name) new ≡ some (create_entry runtime alias config))
  register-Indexed configs [] entries old entries' new within e h =
      let (same_entries, same) = register-none entries old entries' new e in
      rw (same_entries, same)
        (h, (λ key x there. there), λ alias config name i j. absurd (Memᴰ.not-nil i))
  register-Indexed configs ((alias, config) ∷ rest) entries old entries' new within e h =
      let (more, added, again) = register-once alias config rest entries old entries' new e in
      let h' =
        file-Indexed configs alias config entries old more (within (alias, config) (Memᴰ.head refl))
          added h in
      let one =
        add-Added (references_of runtime alias config) (create_entry runtime alias config) old more
          added in
      let (h'', kept, found) =
        register-Indexed configs rest (set alias (create_entry runtime alias config) entries) more
          entries' new (λ c i. within c (Memᴰ.tail i)) again h' in
      (
        h'',
        (λ key x there. kept key x (one.kept key x there)),
        λ a c name i j. elim (Memᴰ.cases_cons i) [
          | inl same ↦
              subst
                (λ p.
                  Memᴰ name (references_of runtime p.0 p.1)
                  → get (runtime.lower name) new ≡ some (create_entry runtime p.0 p.1))
                (sym same) (λ k. kept _ _ (one.found name k)) j
          | inr deeper ↦ found a c name deeper j
        ],
      )

  nothing-Indexed : (configs : List (String × TargetConfig S)) → Indexed configs [] []
  unfolding get
  nothing-Indexed configs = record {
    filed = λ key x there. absurd (none_some there);
    origin = λ key x there. absurd (none_some there);
  }
    where
      none_some : {x : RegistryEntry S} → none ≡ some x → ⊥
      none_some p = ground arith

  create-register :
      (configs : List (String × TargetConfig S)) (local_roots : List (String × String))
      (registry : TargetRegistry S)
      → create runtime configs local_roots ≡ ok registry
      → register runtime configs [] [] ≡ ok (registry.entries, registry.references)
  unfolding create
  create-register configs local_roots registry e =
      elim (Result-cases (register runtime configs [] [])) [
        | inl (index, good) ↦ ground arith
        | inr (x, bad) ↦ absurd (ground arith)
      ]

  pub create-Indexed :
      (configs : List (String × TargetConfig S)) (local_roots : List (String × String))
      (registry : TargetRegistry S)
      → create runtime configs local_roots ≡ ok registry
      → Indexed configs registry.entries registry.references
  create-Indexed configs local_roots registry e =
      (register-Indexed configs configs [] [] registry.entries registry.references (λ c i. i)
        (create-register configs local_roots registry e) (nothing-Indexed configs)).0

  -- In a registry that was constructed, every target is found under its alias, its target id and
  -- each of its previous aliases, in any case that folds to the same text.
  pub references-resolve :
      (configs : List (String × TargetConfig S)) (local_roots : List (String × String))
      (registry : TargetRegistry S) (alias : String) (config : TargetConfig S) (name : String)
      → create runtime configs local_roots ≡ ok registry
      → Memᴰ (alias, config) configs
      → Memᴰ name (references_of runtime alias config)
      → get (runtime.lower name) registry.references ≡ some (create_entry runtime alias config)
  references-resolve configs local_roots registry alias config name e i j =
      (register-Indexed configs configs [] [] registry.entries registry.references (λ c i. i)
          (create-register configs local_roots registry e) (nothing-Indexed configs)).2
        alias config name i j
