-- ===== src/MachineIdentity/Tests.antt =====
-- The identifier of a probed machine, and the theorem at a concrete input. The hash is the last text
-- hashed, and the runtime leaves the case of a text as it is.
use enhanced_ssh.Prelude.{ℕ, true, false, String, List, [], ◌∷◌, none, some, ◌≡◌, refl, codes, get}
use enhanced_ssh.Errors.{other_error}
use enhanced_ssh.Result.{ok, err, is_ok}
use enhanced_ssh.ProbeParser.Types.{
  TargetInfoProbeResult, linux, hostname_unavailable, os_info_partial, disk_info_unavailable,
  docker_not_installed, compose_not_installed,
}
use enhanced_ssh.ProbeParser.Fields.{
  Fields, utf16_length, assert_text, required_text, optional_text, required_boolean,
  optional_safe_integer, enum_value, required_enum, optional_enum, no_pattern,
}
use enhanced_ssh.ProbeParser.Facts.{
  has_shape, is_zero_id, is_native_machine_id, read_operating_system, complete_disk,
  read_complete_disk, is_inconsistent, read_docker_facts, docker_warnings, parse_target_info,
}
use enhanced_ssh.MachineIdentity.{
  is_normal_id, normalize_native_machine_id, derive_machine_id, derive, close,
}
use enhanced_ssh.MachineIdentity.Probed.{parse_target_info-derive}

run_identity : Unit {0}
unfolding utf16_length assert_text required_text optional_text required_boolean
    optional_safe_integer enum_value required_enum optional_enum has_shape is_zero_id
    is_native_machine_id read_operating_system complete_disk read_complete_disk is_inconsistent
    read_docker_facts docker_warnings parse_target_info is_normal_id normalize_native_machine_id
    derive_machine_id derive close get
run_identity = tt

abbrev raw : String
raw = "0123456789abcdef0123456789abcdef"

abbrev fields : Fields
fields =
    ("platform", "linux")
    ∷ ("machine.nativeId", raw)
    ∷ ("docker.installed", "false")
    ∷ ("docker.daemonReachable", "false")
    ∷ ("compose.installed", "false")
    ∷ []

abbrev same_case : String → String
same_case value = value

abbrev hmac : List ℕ → String → String
hmac key value = value

abbrev key : List ℕ
key = codes "kkkkkkkkkkkkkkkkkkkkkkkkkkkkkkkk"

abbrev info : TargetInfoProbeResult
info = record {
  reported_platform = linux;
  native_machine_id = some raw;
  hostname = none;
  os = record { name = none; version = none; build = none; kernel = none; architecture = none };
  disk = none;
  docker = record {
    installed = false;
    daemon_reachable = false;
    client_version = none;
    server_version = none;
    context_name = none;
    context_scope = none;
    compose = record { installed = false; provider = none; version = none };
  };
  warnings =
      hostname_unavailable ∷ os_info_partial ∷ disk_info_unavailable ∷ docker_not_installed
      ∷ compose_not_installed ∷ [];
}

raw_read : optional_text fields "machine.nativeId" 128 no_pattern ≡ ok (some raw)
unfolding run_identity
raw_read = refl

info_read : parse_target_info same_case fields ≡ ok info
unfolding run_identity
info_read = refl

identity_tests :
    (derive hmac same_case (record { key = some key }) linux raw
      ≡ ok "mid_agent-ssh-machine-id-v1\0linux\00123456789abcdef0123456789abcdef")
    × (derive hmac same_case (close (record { key = some key })) linux raw
        ≡ err (other_error "Machine identity key store is closed"))
    × (derive hmac same_case (record { key = some key }) linux "00000000000000000000000000000000"
        ≡ err (other_error "Remote platform returned an invalid native machine identifier"))
unfolding run_identity
identity_tests = (refl, refl, refl)

parse_target_info-derive_example :
    (info.native_machine_id ≡ some raw)
    × (is_ok (derive hmac same_case (record { key = some key }) linux raw) ≡ true)
parse_target_info-derive_example =
    parse_target_info-derive hmac same_case key fields info raw refl refl refl raw_read info_read
