-- ===== src/TargetRegistry/Index.antt =====
-- The construction of a `TargetRegistry`: its entries by alias, and by every reference to a target
-- with its case folded.
use enhanced_ssh.Prelude.{
  ℕ, Bool, true, false, not, String, List, [], ◌∷◌, Option, none, some, if◌then◌else◌, leb, ltb,
  ◌==◌, ◌&&◌, ◌||◌, take, length, codes, all, is_alphanumeric, get, has_key, set,
}
use Prim.Native.String.{◌++◌ as append_text}
use mathlib.Core.Option.{get_or as or_else}
use enhanced_ssh.Errors.{
  Failure, gateway, gateway_error, raise_gateway, config_invalid, invalid_params, target_not_found,
  target_disabled, Detail, text,
}
use enhanced_ssh.Result.{Result, ok, err, ◌>>=◌, ◌>>◌, require}
use enhanced_ssh.TargetRegistry.Types.{
  TargetPolicy, allow_list_policy, full_access_policy, deny_policy, preset_policy, PolicyMode,
  allow_list, full_access, deny, presets, TransferMode, deny_transfer, bidirectional, restricted,
  all_paths, TargetConnectionMode, openssh, tailscale_ssh, TargetConfig, RegisteredTarget,
  RegistryEntry, Runtime,
}

module _ {S : Type 0} where
  -- config.policy.mode
  abbrev pub mode_of : TargetPolicy S → PolicyMode
  mode_of (allow_list_policy commands ms) = allow_list
  mode_of (full_access_policy ms) = full_access
  mode_of (deny_policy ms) = deny
  mode_of (preset_policy selection ms) = presets

  -- config.policy.maxTimeoutMs
  abbrev pub policy_timeout : TargetPolicy S → ℕ
  policy_timeout (allow_list_policy commands ms) = ms
  policy_timeout (full_access_policy ms) = ms
  policy_timeout (deny_policy ms) = ms
  policy_timeout (preset_policy selection ms) = ms

  -- The commands of an allow-list, and of no other policy.
  abbrev pub commands_of : TargetPolicy S → List String
  commands_of (allow_list_policy commands ms) = commands
  commands_of (full_access_policy ms) = []
  commands_of (deny_policy ms) = []
  commands_of (preset_policy selection ms) = []

  abbrev pub selection_of : TargetPolicy S → Option S
  selection_of (preset_policy selection ms) = some selection
  selection_of (allow_list_policy commands ms) = none
  selection_of (full_access_policy ms) = none
  selection_of (deny_policy ms) = none

abbrev pub is_full_access : PolicyMode → Bool
is_full_access full_access = true
is_full_access _ = false

abbrev pub is_presets : PolicyMode → Bool
is_presets presets = true
is_presets _ = false

-- connection?.mode === "tailscale-ssh"
abbrev pub is_tailscale : TargetConnectionMode → Bool
is_tailscale tailscale_ssh = true
is_tailscale _ = false

abbrev pub max_timeout : ℕ
max_timeout = 3600000

abbrev pub not_unique : Failure
not_unique = raise_gateway config_invalid "Target references are not unique"

module _ {S : Type 0} (runtime : Runtime) where
  unfoldable pub create_entry : String → TargetConfig S → RegistryEntry S
  create_entry alias config =
      let connection = or_else config.connection openssh in
      let mode = mode_of config.policy in
      let unrestricted = is_full_access mode && not (is_tailscale connection) in
      let transfer_mode : Option TransferMode = elim config.transfer [
        | none ↦ none
        | some t ↦ some t.mode
      ] in
      let roots : List String = elim config.transfer [ none ↦ [] | some t ↦ t.local_roots ] in
      let transfer_ms : Option ℕ = elim config.transfer [
        | none ↦ none
        | some t ↦ some t.max_timeout_ms
      ] in
      record {
        target = record {
          target_id = or_else config.target_id (runtime.legacy_target_id alias config.ssh_alias);
          alias = alias;
          ssh_alias = config.ssh_alias;
          description = config.description;
          group = config.group;
          enabled = config.enabled;
          platform = config.platform;
          connection_mode = connection;
          policy_mode = mode;
          transfer_mode =
              if is_presets mode || is_tailscale connection
              then deny_transfer
              else if unrestricted
              then bidirectional
              else or_else transfer_mode deny_transfer;
          transfer_scope = if unrestricted then all_paths else restricted;
          transfer_roots = if unrestricted || is_presets mode then [] else roots;
          max_timeout_ms = policy_timeout config.policy;
          max_transfer_timeout_ms =
              or_else transfer_ms
                (if unrestricted then max_timeout else policy_timeout config.policy);
        };
        allowed_commands = commands_of config.policy;
        transfer = config.transfer;
        preset_selection = selection_of config.policy;
      }

  -- [alias, entry.target.targetId, ...(config.previousAliases ?? [])]
  unfoldable pub references_of : String → TargetConfig S → List String
  unfolding create_entry
  references_of alias config =
      alias ∷ (create_entry alias config).target.target_id ∷ or_else config.previous_aliases []

  -- The inner loop of the constructor.
  unfoldable pub add_references :
      List String
      → RegistryEntry S
      → List (String × RegistryEntry S)
      → Result (List (String × RegistryEntry S))
  add_references [] entry references = ok references
  add_references (reference ∷ rest) entry references = do
    let folded = runtime.lower reference
    require (not (has_key folded references)) not_unique
    add_references rest entry (set folded entry references)

  -- The outer loop of the constructor.
  unfoldable pub register :
      List (String × TargetConfig S)
      → List (String × RegistryEntry S)
      → List (String × RegistryEntry S)
      → Result (List (String × RegistryEntry S) × List (String × RegistryEntry S))
  register [] entries references = ok (entries, references)
  register ((alias, config) ∷ rest) entries references = do
    let entry = create_entry alias config
    more ← add_references (references_of alias config) entry references
    register rest (set alias entry entries) more

-- The order of two texts by their code points.
unfoldable pub precedes : List ℕ → List ℕ → Bool
precedes [] right = true
precedes (l ∷ left) [] = false
precedes (l ∷ left) (r ∷ right) =
    let later = precedes left right in if l == r then later else ltb l r

unfoldable pub insert : RegisteredTarget → List RegisteredTarget → List RegisteredTarget
insert t [] = t ∷ []
insert t (u ∷ us) = if precedes (codes t.alias) (codes u.alias) then t ∷ u ∷ us else u ∷ insert t us

-- The summaries, ordered by alias.
unfoldable pub summaries_of : {S : Type 0} → List (String × RegistryEntry S) → List RegisteredTarget
summaries_of [] = []
summaries_of ((alias, entry) ∷ rest) = insert entry.target (summaries_of rest)

pub record TargetRegistry (S : Type 0) : Type 0 where
  pub configs : List (String × TargetConfig S)
  pub entries : List (String × RegistryEntry S)
  pub references : List (String × RegistryEntry S)
  pub summaries : List RegisteredTarget
  pub local_roots : List (String × String)

unfoldable pub create :
    {S : Type 0}
    → Runtime
    → List (String × TargetConfig S)
    → List (String × String)
    → Result (TargetRegistry S)
create runtime configs local_roots = do
  index ← register runtime configs [] []
  ok (record {
    configs = configs;
    entries = index.0;
    references = index.1;
    summaries = summaries_of index.0;
    local_roots = local_roots;
  })

-- /^[A-Za-z0-9][A-Za-z0-9._-]{0,127}$/
unfoldable pub is_target_alias : List ℕ → Bool
is_target_alias [] = false
is_target_alias (c ∷ cs) =
    is_alphanumeric c
    && leb (length cs) 127
    && all (λ x. is_alphanumeric x || x == b'.' || x == b'_' || x == b'-') cs

abbrev pub join_aliases : List RegisteredTarget → String
join_aliases [] = ""
join_aliases (t ∷ []) = t.alias
join_aliases (t ∷ u ∷ us) = append_text t.alias (append_text ", " (join_aliases (u ∷ us)))

unfoldable pub not_found : {S : Type 0} → TargetRegistry S → String → Failure
not_found registry alias =
    let candidates = join_aliases (take 8 registry.summaries) in
    let listed : List (String × Detail) = elim (codes candidates) [
      | [] ↦ []
      | c ∷ cs ↦ ("candidates", text candidates) ∷ []
    ] in
    gateway (
      gateway_error target_not_found "Target was not found"
        (some (("target", text alias) ∷ listed)))

abbrev pub about_target : String → List (String × Detail)
about_target alias = ("target", text alias) ∷ []

-- The method `require`.
unfoldable pub require_target :
    {S : Type 0} → Runtime → TargetRegistry S → String → Result RegisteredTarget
require_target runtime registry alias = do
  require (is_target_alias (codes alias)) (raise_gateway invalid_params "Target alias is invalid")
  elim (get (runtime.lower alias) registry.references) [
    | none ↦ err (not_found registry alias)
    | some entry ↦ do
      require entry.target.enabled
          (gateway (gateway_error target_disabled "Target is disabled" (some (about_target alias))))
      ok entry.target
  ]
