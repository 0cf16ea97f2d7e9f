-- ===== src/TargetRegistry/Authorize.antt =====
-- The authorizing methods of `TargetRegistry`.
use enhanced_ssh.Prelude.{
  includes, ℕ, min, Bool, true, false, not, ◌&&◌, ◌||◌, String, List, [], ◌∷◌, Option, none, some,
  leb, ◌==◌, codes, any, get, if◌then◌else◌,
}
use mathlib.Core.Option.{get_or as or_else}
use enhanced_ssh.Errors.{
  Failure, gateway, gateway_error, raise_gateway, invalid_params, command_denied, transfer_denied,
  config_invalid, internal_error, Detail, text, number,
}
use enhanced_ssh.Result.{Result, ok, err, ◌>>=◌, ◌>>◌, require}
use enhanced_ssh.RollingLog.{max_safe_integer}
use enhanced_ssh.TargetRegistry.Types.{
  PolicyMode, allow_list, TransferMode, deny_transfer, upload_only, download_only, bidirectional,
  TransferScope, restricted, all_paths, TargetConnectionMode, accessclient_share, openssh,
  tailscale_ssh, Direction, upload, download, sync, TransferPolicy, RegisteredTarget, RegistryEntry,
  TargetAuthorization, TransferAuthorization, Runtime,
}
use enhanced_ssh.TargetRegistry.Index.{
  TargetRegistry, require_target, about_target, is_full_access, is_presets, is_tailscale,
}

-- requested === undefined, or a safe integer from 1 through the maximum.
abbrev pub fits_timeout : Option ℕ → ℕ → Bool
fits_timeout none maximum = true
fits_timeout (some ms) maximum = leb ms max_safe_integer && leb 1 ms && leb ms maximum

abbrev pub denied : String → String → Failure
denied message alias = gateway (gateway_error command_denied message (some (about_target alias)))

abbrev pub transfer_refused : String → List (String × Detail) → Failure
transfer_refused message details = gateway (gateway_error transfer_denied message (some details))

abbrev pub timeout_refused : String → ℕ → Failure
timeout_refused message maximum =
    gateway (gateway_error invalid_params message (some (("maxTimeoutMs", number maximum) ∷ [])))

unfoldable pub authorize_timeout : RegisteredTarget → Option ℕ → Result ℕ
authorize_timeout target requested = do
  require (fits_timeout requested target.max_timeout_ms)
      (timeout_refused "Requested timeout exceeds the target policy" target.max_timeout_ms)
  ok (or_else requested target.max_timeout_ms)

-- /[\0\r\n]/u.test(command)
abbrev pub has_line_break : String → Bool
has_line_break command = any (λ c. c == 0 || c == 13 || c == 10) (codes command)

abbrev pub max_command_bytes : ℕ
max_command_bytes = 65536

abbrev pub is_allow_list : PolicyMode → Bool
is_allow_list allow_list = true
is_allow_list _ = false

abbrev pub is_command : Runtime → String → Bool
is_command runtime command =
    not (runtime.is_blank command)
    && not (has_line_break command)
    && leb (runtime.byte_length command) max_command_bytes

-- The policy of `authorize`, for the entry of the target.
unfoldable pub allows : {S : Type 0} → RegistryEntry S → RegisteredTarget → String → Bool
allows entry target command =
    is_full_access target.policy_mode
    || (is_allow_list target.policy_mode && includes command entry.allowed_commands)

abbrev probe_timeout : TargetConnectionMode → ℕ
probe_timeout accessclient_share = 30000
probe_timeout openssh = 15000
probe_timeout tailscale_ssh = 15000

abbrev pub is_unrestricted : TransferScope → Bool
is_unrestricted all_paths = true
is_unrestricted restricted = false

-- Whether a transfer policy of this mode covers the direction.
unfoldable pub covers : TransferMode → Direction → Bool
covers bidirectional direction = true
covers upload_only upload = true
covers upload_only sync = true
covers upload_only download = false
covers download_only download = true
covers download_only upload = false
covers download_only sync = false
covers deny_transfer direction = false

abbrev pub direction_allowed : RegisteredTarget → Option TransferPolicy → Direction → Bool
direction_allowed target transfer direction = elim transfer [
  | none ↦ is_unrestricted target.transfer_scope
  | some policy ↦ is_unrestricted target.transfer_scope || covers policy.mode direction
]

-- localRoot !== undefined && transfer?.localRoots.includes(localRoot)
abbrev pub root_listed : Option TransferPolicy → Option String → Bool
root_listed none root = false
root_listed (some policy) none = false
root_listed (some policy) (some root) = includes root policy.local_roots

abbrev root_details : String → Option String → List (String × Detail)
root_details alias none = about_target alias
root_details alias (some root) = ("target", text alias) ∷ ("localRoot", text root) ∷ []

abbrev pub granted :
    RegisteredTarget → Option TransferPolicy → Option String → Option ℕ → TransferAuthorization
granted target transfer path requested = record {
  target = target;
  timeout_ms = or_else requested target.max_transfer_timeout_ms;
  scope = if is_unrestricted target.transfer_scope then all_paths else restricted;
  local_root_path = path;
  remote_roots =
      if is_unrestricted target.transfer_scope
      then []
      else elim transfer [ none ↦ [] | some policy ↦ policy.remote_roots ];
  max_file_bytes = elim transfer [ none ↦ 10737418240 | some policy ↦ policy.max_file_bytes ];
  max_total_bytes = elim transfer [ none ↦ 107374182400 | some policy ↦ policy.max_total_bytes ];
  max_files = elim transfer [ none ↦ 10000 | some policy ↦ policy.max_files ];
}

module _ {S : Type 0} (runtime : Runtime) (registry : TargetRegistry S) where
  unfoldable pub authorize : String → String → Option ℕ → Result TargetAuthorization
  authorize alias command requested = do
    target ← require_target runtime registry alias
    elim (get target.alias registry.entries) [
      | none ↦ err (raise_gateway internal_error "Internal gateway error")
      | some entry ↦ do
        require (is_command runtime command) (raise_gateway invalid_params "Command is invalid")
        require (allows entry target command)
            (denied "Command is not allowed for this target" alias)
        ms ← authorize_timeout target requested
        ok (record { target = target; timeout_ms = ms })
    ]

  unfoldable pub authorize_structured : String → Option ℕ → Result TargetAuthorization
  authorize_structured alias requested = do
    target ← require_target runtime registry alias
    require (is_full_access target.policy_mode)
        (denied "Structured execution is not allowed for this target" alias)
    ms ← authorize_timeout target requested
    ok (record { target = target; timeout_ms = ms })

  unfoldable pub authorize_check : String → Result TargetAuthorization
  authorize_check alias = do
    target ← require_target runtime registry alias
    ok (record {
      target = target;
      timeout_ms = min target.max_timeout_ms (probe_timeout target.connection_mode);
    })

  unfoldable pub authorize_inspect : String → Result TargetAuthorization
  unfolding authorize_check
  authorize_inspect alias = authorize_check alias

  unfoldable pub authorize_docker_preflight : String → Result TargetAuthorization
  authorize_docker_preflight alias = do
    target ← require_target runtime registry alias
    require (is_full_access target.policy_mode)
        (denied "Docker preflight is only enabled for full-access targets" alias)
    ok (record { target = target; timeout_ms = min target.max_timeout_ms 120000 })

  -- The configured directory of the root that was asked for, if any was. `localRoots` has the
  -- configured keys only; the members that a JavaScript object inherits are not modelled.
  abbrev pub root_path : Option String → Result (Option String)
  root_path none = ok none
  root_path (some root) = elim (get root registry.local_roots) [
    | none ↦ err (raise_gateway config_invalid "Configured local transfer root is unavailable")
    | some path ↦ ok (some path)
  ]

  -- The entry's transfer policy: `this.#entries.get(target.alias)?.transfer`.
  abbrev pub transfer_of : RegisteredTarget → Option TransferPolicy
  transfer_of target = elim (get target.alias registry.entries) [
    | none ↦ none
    | some entry ↦ entry.transfer
  ]

  unfoldable pub authorize_transfer :
      String → Direction → Option String → Option ℕ → Result TransferAuthorization
  authorize_transfer alias direction local_root requested = do
    target ← require_target runtime registry alias
    require (not (is_presets target.policy_mode))
        (transfer_refused "File transfer is disabled by the preset policy" (about_target alias))
    require (not (is_tailscale target.connection_mode))
        (raise_gateway transfer_denied "Tailscale SSH file transfer is not supported yet")
    let transfer = transfer_of target
    require (direction_allowed target transfer direction)
        (transfer_refused "File transfer is not allowed for this target" (about_target alias))
    require (is_unrestricted target.transfer_scope || root_listed transfer local_root) (
        transfer_refused "Local transfer root is not allowed for this target"
          (root_details alias local_root))
    path ← root_path local_root
    require (fits_timeout requested target.max_transfer_timeout_ms) (
        timeout_refused "Requested transfer timeout exceeds the target policy"
          target.max_transfer_timeout_ms)
    ok (granted target transfer path requested)
