-- ===== src/ProbeParser/Tests.antt =====
-- A frame and two preflights read at work, and the theorems at concrete inputs. The codec of the frame
-- takes each byte as a character, and base64 text as it stands.
use enhanced_ssh.Prelude.{
  ℕ, ◌≤◌, true, false, String, List, [], ◌∷◌, none, some, ◌≡◌, refl, length, codes, if◌then◌else◌,
  ◌==◌, get, set,
}
use Prim.Native.Char.{Char, code, nul}
use enhanced_ssh.Result.{ok, err}
use enhanced_ssh.ProbeParser.Types.{
  target_info, DockerPreflightProbeResult, linux, tcp, not_observed, unknown_owner, create, valid,
  containers_not_requested, disk_available, local_scope, plugin, ready,
}
use enhanced_ssh.ProbeParser.Fields.{
  Fields, utf16_length, assert_text, required_text, optional_text, required_boolean, is_decimal,
  decimal_value, required_safe_integer, optional_safe_integer, enum_value, required_enum,
  optional_enum, decimal_digits, index_text, parse_error,
}
use enhanced_ssh.ProbeParser.Frame.{
  Codec, key_tail, is_key, is_canonical_base64, decode_canonical_base64, has_bare_return,
  unify_newlines, ends_newline, drop_last, split_lines, split_first, strip_prefix, is_indexed_key,
  is_known_key, add_entry, add_field, read_fields, frame_body, parse_lines, parse_frame, index_fits,
  assert_dynamic_indexes,
}
use enhanced_ssh.ProbeParser.FrameLaws.{Framed, parse_frame-Framed}
use enhanced_ssh.ProbeParser.Facts.{is_inconsistent, read_docker_facts, docker_warnings}
use enhanced_ssh.ProbeParser.Ports.{read_port, read_ports_from, read_ports}
use enhanced_ssh.ProbeParser.Containers.{optional_filter, read_containers_from, read_containers}
use enhanced_ssh.ProbeParser.Report.{
  check_disk, read_preflight_disk, is_port_conflict, lacks_space, is_blocked, is_degraded,
  derive_overall, disk_warnings, preflight_warnings, read_observations, parse_docker_preflight,
}
use enhanced_ssh.ProbeParser.Verdict.{verdict_of, parse_docker_preflight-verdict_of}
use enhanced_ssh.ProbeParser.Bounds.{Bounded, parse_docker_preflight-Bounded}

run_probe : Unit {0}
unfolding utf16_length assert_text required_text optional_text required_boolean is_decimal
    decimal_value required_safe_integer optional_safe_integer enum_value required_enum optional_enum
    decimal_digits index_text key_tail is_key is_canonical_base64 decode_canonical_base64
    has_bare_return unify_newlines ends_newline drop_last split_lines split_first strip_prefix
    is_indexed_key is_known_key add_entry add_field read_fields frame_body parse_lines parse_frame
    index_fits assert_dynamic_indexes is_inconsistent read_docker_facts docker_warnings read_port
    read_ports_from read_ports optional_filter read_containers_from read_containers check_disk
    read_preflight_disk is_port_conflict lacks_space is_blocked is_degraded derive_overall
    disk_warnings preflight_warnings read_observations parse_docker_preflight get set
run_probe = tt

-- The characters of the sample.
abbrev alphabet : String
alphabet = "ABCDEFGHIJKLMNOPQRSTUVWXYZabcdefghijklmnopqrstuvwxyz0123456789_-.:=\t\n"

abbrev character_of : ℕ → String → Char
character_of n String.[] = nul
character_of n (String.◌∷◌ c rest) = if code c == n then c else character_of n rest

abbrev text_of : List ℕ → String
text_of [] = ""
text_of (n ∷ ns) = String.◌∷◌ (character_of n alphabet) (text_of ns)

abbrev codec : Codec
codec = record {
  is_utf8 = λ bytes. true;
  to_text = text_of;
  from_base64 = λ text. codes text;
  to_base64 = text_of;
}

abbrev frame : String
frame =
    "agent-ssh-probe-v1\ttarget-info\nplatform:bGlu\ndocker.installed:dA==\nAGENT_SSH_PROBE_END\n"

abbrev framed : Fields
framed = ("platform", "bGlu") ∷ ("docker.installed", "dA==") ∷ []

frame_accepted : parse_frame codec target_info (codes frame) ≡ ok framed
unfolding run_probe
frame_accepted = refl

-- A repeated key, a key of the other kind of probe, and a last line that is missing.
frame_refused :
    (parse_frame codec target_info (
        codes
          "agent-ssh-probe-v1\ttarget-info\nplatform:bGlu\nplatform:bGlu\nAGENT_SSH_PROBE_END\n")
      ≡ err (parse_error "Probe output contains an invalid or duplicate key"))
    × (parse_frame codec target_info
          (codes "agent-ssh-probe-v1\ttarget-info\nports.count:bGlu\nAGENT_SSH_PROBE_END\n")
        ≡ err (parse_error "Probe output contains an unknown field"))
    × (parse_frame codec target_info (codes "agent-ssh-probe-v1\ttarget-info\nplatform:bGlu\n")
        ≡ err (parse_error "Probe output has an invalid frame boundary"))
unfolding run_probe
frame_refused = (refl, refl, refl)

parse_frame-Framed_example :
    Framed target_info framed × (1 ≤ length (codes frame)) × (length (codes frame) ≤ 131072)
parse_frame-Framed_example =
    parse_frame-Framed codec target_info (codes frame) framed frame_accepted

abbrev preflight_fields : List (String × String) → Fields
preflight_fields others =
    ("platform", "linux")
    ∷ ("docker.installed", "true")
    ∷ ("docker.daemonReachable", "true")
    ∷ ("docker.clientVersion", "27.1")
    ∷ ("docker.serverVersion", "27.1")
    ∷ ("docker.contextName", "default")
    ∷ ("docker.contextScope", "local")
    ∷ ("compose.installed", "true")
    ∷ ("compose.provider", "plugin")
    ∷ ("preflight.intent", "create")
    ∷ ("containers.status", "not-requested")
    ∷ ("containers.count", "0")
    ∷ ("containers.truncated", "false")
    ∷ others

-- A target with room enough and its port free.
abbrev calm_fields : Fields
calm_fields = preflight_fields (
    ("compose.requested", "true")
    ∷ ("compose.config", "valid")
    ∷ ("ports.count", "1")
    ∷ ("port.0.protocol", "tcp")
    ∷ ("port.0.port", "8080")
    ∷ ("port.0.observation", "not-observed")
    ∷ ("port.0.ownership", "unknown")
    ∷ ("disk.status", "available")
    ∷ ("disk.path", "/srv")
    ∷ ("disk.totalBytes", "500")
    ∷ ("disk.availableBytes", "90")
    ∷ ("disk.requiredBytes", "90")
    ∷ [])

abbrev calm : DockerPreflightProbeResult
calm = record {
  intent = create;
  reported_platform = linux;
  overall = ready;
  docker = record {
    installed = true;
    daemon_reachable = true;
    client_version = some "27.1";
    server_version = some "27.1";
    context_name = some "default";
    context_scope = some local_scope;
    compose = record { installed = true; provider = some plugin; version = none };
  };
  requested = true;
  config = valid;
  ports =
      record { protocol = tcp; port = 8080; observation = not_observed; ownership = unknown_owner }
      ∷ [];
  containers = record {
    status = containers_not_requested;
    filter = none;
    items = [];
    truncated = false;
  };
  disk = record {
    status = disk_available;
    path = some "/srv";
    total_bytes = some 500;
    available_bytes = some 90;
    required_bytes = some 90;
  };
  warnings = [];
}

calm_accepted : parse_docker_preflight calm_fields ≡ ok calm
unfolding run_probe
calm_accepted = refl

parse_docker_preflight-verdict_of_example : ready ≡ verdict_of [] disk_available
parse_docker_preflight-verdict_of_example =
    parse_docker_preflight-verdict_of calm_fields calm calm_accepted

parse_docker_preflight-Bounded_example : Bounded calm
parse_docker_preflight-Bounded_example =
    parse_docker_preflight-Bounded calm_fields calm calm_accepted

-- A port given twice, and one out of range.
ports_refused :
    (read_ports (("ports.count", "1") ∷ ("port.0.protocol", "tcp") ∷ ("port.0.port", "65536") ∷ [])
      ≡ err (parse_error "Probe returned an out-of-range integer for port.0.port"))
    × (read_ports (("ports.count", "1") ∷ ("port.1.protocol", "tcp") ∷ [])
        ≡ err (parse_error "Probe returned an out-of-range port index"))
unfolding run_probe
ports_refused = (refl, refl)
