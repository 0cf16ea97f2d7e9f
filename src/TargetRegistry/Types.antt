-- ===== src/TargetRegistry/Types.antt =====
-- The data of src/core/target-registry.ts, the configuration of src/config/load-config.ts that it
-- reads, and the enumerations of src/shared/protocol.ts. `S` is the type of a selection of presets,
-- which the registry only carries.
use enhanced_ssh.Prelude.{ℕ, Bool, String, List, Option}

pub data TargetPlatform : Type 0 where
  windows linux macos : TargetPlatform

pub data TargetConnectionMode : Type 0 where
  openssh accessclient_share tailscale_ssh : TargetConnectionMode

pub data PolicyMode : Type 0 where
  allow_list full_access deny presets : PolicyMode

pub data TransferMode : Type 0 where
  deny_transfer upload_only download_only bidirectional : TransferMode

-- "restricted" and "all".
pub data TransferScope : Type 0 where
  restricted all_paths : TransferScope

pub data Direction : Type 0 where
  upload download sync : Direction

pub data TargetPolicy (S : Type 0) : Type 0 where
  allow_list_policy : List String → ℕ → TargetPolicy S
  full_access_policy : ℕ → TargetPolicy S
  deny_policy : ℕ → TargetPolicy S
  preset_policy : S → ℕ → TargetPolicy S

pub record TransferPolicy : Type 0 where
  pub mode : TransferMode
  pub local_roots : List String
  pub remote_roots : List String
  pub max_file_bytes : ℕ
  pub max_total_bytes : ℕ
  pub max_files : ℕ
  pub max_timeout_ms : ℕ

-- Of `connection` the registry reads the mode.
pub record TargetConfig (S : Type 0) : Type 0 where
  pub target_id : Option String
  pub group : Option String
  pub previous_aliases : Option (List String)
  pub description : Option String
  pub ssh_alias : String
  pub connection : Option TargetConnectionMode
  pub platform : TargetPlatform
  pub enabled : Bool
  pub policy : TargetPolicy S
  pub transfer : Option TransferPolicy

pub record RegisteredTarget : Type 0 where
  pub target_id : String
  pub alias : String
  pub ssh_alias : String
  pub description : Option String
  pub group : Option String
  pub enabled : Bool
  pub platform : TargetPlatform
  pub connection_mode : TargetConnectionMode
  pub policy_mode : PolicyMode
  pub transfer_mode : TransferMode
  pub transfer_scope : TransferScope
  pub transfer_roots : List String
  pub max_timeout_ms : ℕ
  pub max_transfer_timeout_ms : ℕ

pub record RegistryEntry (S : Type 0) : Type 0 where
  pub target : RegisteredTarget
  pub allowed_commands : List String
  pub transfer : Option TransferPolicy
  pub preset_selection : Option S

pub record TargetAuthorization : Type 0 where
  pub target : RegisteredTarget
  pub timeout_ms : ℕ

pub record TransferAuthorization : Type 0 where
  pub target : RegisteredTarget
  pub timeout_ms : ℕ
  pub scope : TransferScope
  pub local_root_path : Option String
  pub remote_roots : List String
  pub max_file_bytes : ℕ
  pub max_total_bytes : ℕ
  pub max_files : ℕ

-- What the runtime does with a text: `toLowerCase`, whether `trim` leaves nothing, the length in
-- UTF-8, and the legacy id, which is a digest of the two aliases.
pub record Runtime : Type 0 where
  pub lower : String → String
  pub is_blank : String → Bool
  pub byte_length : String → ℕ
  pub legacy_target_id : String → String → String
