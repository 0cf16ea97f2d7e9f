-- ===== src/TargetRegistry/TransferGrants.antt =====
-- What an authorization to transfer files proves about the configuration that it comes from.
use enhanced_ssh.Prelude.{
  includes, ℕ, Bool, true, false, not, ◌&&◌, ◌||◌, String, List, Option, none, some, ◌≡◌, refl, sym,
  ap, ◌∙◌, ◌⊎◌, inl, inr, arith, subst, Bool-cases, get, if◌then◌else◌,
}
use enhanced_ssh.Result.{ok, bind-ok, require-ok, ok-injective}
use enhanced_ssh.TargetRegistry.Types.{
  TargetConfig, RegistryEntry, RegisteredTarget, Runtime, TransferAuthorization, TransferPolicy,
  TargetPolicy, allow_list_policy, full_access_policy, deny_policy, preset_policy, Direction,
  upload, download, sync, TransferMode, bidirectional, upload_only, download_only, deny_transfer,
  full_access, all_paths, restricted,
}
use mathlib.Core.Option.{get_or as or_else}
use enhanced_ssh.TargetRegistry.Index.{
  TargetRegistry, create_entry, create, require_target, mode_of, is_full_access, is_presets,
  is_tailscale,
}
use enhanced_ssh.TargetRegistry.Authorize.{
  authorize_transfer, fits_timeout, covers, direction_allowed, root_listed, root_path, transfer_of,
  is_unrestricted,
}
use enhanced_ssh.TargetRegistry.IndexLaws.{create-Indexed}
use enhanced_ssh.TargetRegistry.Grants.{
  Resolves, require-Resolves, TimeoutGranted, whole, lowered, fits_timeout-bounds,
}

-- The directions that a transfer policy gives leave for: both, to the target (an upload or a sync), or
-- from it.
pub data Leave (mode : TransferMode) (direction : Direction) : Type 0 where
  both_ways : mode ≡ bidirectional → Leave mode direction
  to_target : mode ≡ upload_only → (direction ≡ upload) ⊎ (direction ≡ sync) → Leave mode direction
  from_target : mode ≡ download_only → direction ≡ download → Leave mode direction

covers-Leave :
    (mode : TransferMode) (direction : Direction)
    → covers mode direction ≡ true
    → Leave mode direction
unfolding covers
covers-Leave bidirectional direction h = both_ways refl
covers-Leave upload_only upload h = to_target refl (inl refl)
covers-Leave upload_only sync h = to_target refl (inr refl)
covers-Leave upload_only download h = absurd (ground arith)
covers-Leave download_only download h = from_target refl refl
covers-Leave download_only upload h = absurd (ground arith)
covers-Leave download_only sync h = absurd (ground arith)
covers-Leave deny_transfer direction h = absurd (ground arith)

-- The policy of a target that is not of full access gives leave for the direction and lists the local
-- root.
pub record Listed (policy : TransferPolicy) (direction : Direction) (local_root : Option String)
    : Type 0 where
  pub leave : Leave policy.mode direction
  pub root : String
  pub asked : local_root ≡ some root
  pub included : includes root policy.local_roots ≡ true

fits-TimeoutGranted :
    (requested : Option ℕ) (maximum : ℕ)
    → fits_timeout requested maximum ≡ true
    → TimeoutGranted maximum (or_else requested maximum) requested
fits-TimeoutGranted none maximum fits = whole refl
fits-TimeoutGranted (some ms) maximum fits =
    let (least, most) = fits_timeout-bounds ms maximum fits in lowered least most

guards-Listed :
    (transfer : Option TransferPolicy) (target : RegisteredTarget) (direction : Direction)
    (local_root : Option String)
    → direction_allowed target transfer direction ≡ true
    → (is_unrestricted target.transfer_scope || root_listed transfer local_root) ≡ true
    → (is_unrestricted target.transfer_scope ≡ true)
      ⊎ ((policy : TransferPolicy) × (transfer ≡ some policy) × Listed policy direction local_root)
guards-Listed none target direction local_root covered listed = inl covered
guards-Listed (some policy) target direction none covered listed = inl (ground arith)
guards-Listed (some policy) target direction (some root) covered listed =
    elim (Bool-cases (is_unrestricted target.transfer_scope)) [
      | inl free ↦ inl free
      | inr bound ↦ inr (
        policy,
        refl,
        record {
          leave = covers-Leave policy.mode direction (ground arith);
          root = root;
          asked = refl;
          included = ground arith;
        },
      )
    ]

module _ {S : Type 0} (runtime : Runtime) where
  -- What `authorize_transfer` has tested when it succeeds.
  record Tested (registry : TargetRegistry S) (asked : String) (direction : Direction)
      (local_root : Option String) (requested : Option ℕ) (permit : TransferAuthorization)
      : Type 0 where
    resolved : require_target runtime registry asked ≡ ok permit.target
    not_presets : not (is_presets permit.target.policy_mode) ≡ true
    allowed :
        direction_allowed permit.target (transfer_of runtime registry permit.target) direction
        ≡ true
    rooted :
        (is_unrestricted permit.target.transfer_scope
          || root_listed (transfer_of runtime registry permit.target) local_root)
        ≡ true
    fits : fits_timeout requested permit.target.max_transfer_timeout_ms ≡ true
    ms_is : permit.timeout_ms ≡ or_else requested permit.target.max_transfer_timeout_ms

  authorize_transfer-Tested :
      (registry : TargetRegistry S) (asked : String) (direction : Direction)
      (local_root : Option String) (requested : Option ℕ) (permit : TransferAuthorization)
      → authorize_transfer runtime registry asked direction local_root requested ≡ ok permit
      → Tested registry asked direction local_root requested permit
  unfolding authorize_transfer
  authorize_transfer-Tested registry asked direction local_root requested permit e =
      let (target, found, rest) = bind-ok (require_target runtime registry asked) _ (sym e) in
      let (no_preset, rest₁) = require-ok (not (is_presets target.policy_mode)) _ _ (sym rest) in
      let (no_tailscale, rest₂) =
        require-ok (not (is_tailscale target.connection_mode)) _ _ rest₁ in
      let transfer = transfer_of runtime registry target in
      let (allowed, rest₃) = require-ok (direction_allowed target transfer direction) _ _ rest₂ in
      let (rooted, rest₄) =
        require-ok (is_unrestricted target.transfer_scope || root_listed transfer local_root) _ _
          rest₃ in
      let (path, at_path, rest₅) = bind-ok (root_path runtime registry local_root) _ (sym rest₄) in
      let (fits, done) =
        require-ok (fits_timeout requested target.max_transfer_timeout_ms) _ _ (sym rest₅) in
      subst (λ p. Tested registry asked direction local_root requested p) (ok-injective done)
        (record {
          resolved = found;
          not_presets = no_preset;
          allowed = allowed;
          rooted = rooted;
          fits = fits;
          ms_is = refl;
        })

  create_entry-unrestricted :
      (alias : String) (config : TargetConfig S)
      → is_unrestricted (create_entry runtime alias config).target.transfer_scope ≡ true
      → mode_of config.policy ≡ full_access
  unfolding create_entry
  create_entry-unrestricted alias config h = full config.policy (free _ _ h)
    where
      free :
          (a b : Bool)
          → is_unrestricted (if a && b then all_paths else restricted) ≡ true
          → a ≡ true
      free true b h = refl
      free false b h = absurd (ground arith)

      full : (p : TargetPolicy S) → is_full_access (mode_of p) ≡ true → mode_of p ≡ full_access
      full (full_access_policy ms) h = refl
      full (allow_list_policy commands ms) h = absurd (ground arith)
      full (deny_policy ms) h = absurd (ground arith)
      full (preset_policy selection ms) h = absurd (ground arith)

  create_entry-mode :
      (alias : String) (config : TargetConfig S)
      → (create_entry runtime alias config).target.policy_mode ≡ mode_of config.policy
  unfolding create_entry
  create_entry-mode alias config = refl

  create_entry-transfer :
      (alias : String) (config : TargetConfig S)
      → (create_entry runtime alias config).transfer ≡ config.transfer
  unfolding create_entry
  create_entry-transfer alias config = refl

  transfer_of-found :
      (registry : TargetRegistry S) (target : RegisteredTarget) (entry : RegistryEntry S)
      → get target.alias registry.entries ≡ some entry
      → transfer_of runtime registry target ≡ entry.transfer
  transfer_of-found registry target entry filed = rw (filed, transfer_of) refl

  -- The grounds of an authorization to transfer files.
  pub record TransferGranted (configs : List (String × TargetConfig S)) (asked : String)
      (direction : Direction) (local_root : Option String) (requested : Option ℕ)
      (permit : TransferAuthorization) : Type 0 where
    pub resolved : Resolves runtime configs asked permit.target
    pub not_presets : is_presets (mode_of resolved.source.config.policy) ≡ false
    pub permitted :
        (mode_of resolved.source.config.policy ≡ full_access)
        ⊎ ((policy : TransferPolicy) × (resolved.source.config.transfer ≡ some policy)
            × Listed policy direction local_root)
    pub timeout : TimeoutGranted permit.target.max_transfer_timeout_ms permit.timeout_ms requested

  -- In a registry that was constructed, an authorization to transfer files rests on an enabled
  -- configuration under one of whose references the client asked, that is not restricted to presets,
  -- and that is of full access or has a transfer policy which lists the local root and gives leave for
  -- the direction: for both, for an upload or a sync only, or for a download only. The timeout is the
  -- one asked for, from 1 through the maximum for transfers, or else that maximum.
  pub authorize_transfer-TransferGranted :
      (configs : List (String × TargetConfig S)) (local_roots : List (String × String))
      (registry : TargetRegistry S) (asked : String) (direction : Direction)
      (local_root : Option String) (requested : Option ℕ) (permit : TransferAuthorization)
      → create runtime configs local_roots ≡ ok registry
      → authorize_transfer runtime registry asked direction local_root requested ≡ ok permit
      → TransferGranted configs asked direction local_root requested permit
  authorize_transfer-TransferGranted configs local_roots registry asked direction local_root
        requested permit made e =
      let h = authorize_transfer-Tested registry asked direction local_root requested permit e in
      let (r, there) =
        require-Resolves runtime configs local_roots registry asked permit.target made h.resolved in
      let alias = r.source.alias in
      let config = r.source.config in
      let filed =
        subst (λ t. get t.alias registry.entries ≡ some r.entry) (sym r.is_target)
          ((create-Indexed runtime configs local_roots registry made).filed _ r.entry there).0 in
      let transfer =
        transfer_of-found registry permit.target r.entry filed
        ∙ ap (λ y. y.transfer) r.source.made
        ∙ create_entry-transfer alias config in
      let target = r.is_target ∙ ap (λ y. y.target) r.source.made in
      let mode = ap (λ y. y.policy_mode) target ∙ create_entry-mode alias config in
      record {
        resolved = r;
        not_presets = not-true _ (subst (λ m. not (is_presets m) ≡ true) mode h.not_presets);
        permitted =
            elim (guards-Listed (transfer_of runtime registry permit.target) permit.target direction
              local_root h.allowed h.rooted) [
                | inl free ↦ inl (
                    create_entry-unrestricted alias config
                      (subst (λ y. is_unrestricted y.transfer_scope ≡ true) target free))
                | inr (policy, there_is, listed) ↦ inr (policy, sym transfer ∙ there_is, listed)
              ];
        timeout =
            subst (λ ms. TimeoutGranted permit.target.max_transfer_timeout_ms ms requested)
              (sym h.ms_is)
              (fits-TimeoutGranted requested permit.target.max_transfer_timeout_ms h.fits);
      }
    where
      not-true : (b : Bool) → not b ≡ true → b ≡ false
      not-true b p = ground arith
