-- ===== src/ProbeParser/Report.antt =====
-- `parseDockerPreflight` of src/core/probe-parser.ts, with its disk facts, its verdict and its warnings.
use enhanced_ssh.Prelude.{
  ℕ, Bool, true, false, not, ◌&&◌, ◌||◌, String, List, [], ◌∷◌, ◌++◌, Option, none, some, leb, ltb,
  if◌then◌else◌, any,
}
use enhanced_ssh.Result.{Result, ok, err, ◌>>=◌, ◌>>◌, require}
use enhanced_ssh.ProbeParser.Types.{
  FixedProbePlatform, ProbeWarningCode, compose_config_invalid, compose_config_unavailable,
  port_state_unknown, port_listener_observed, container_state_unavailable, container_unhealthy,
  container_starting, container_list_truncated, required_disk_space_unavailable,
  required_disk_space_insufficient, ProbeDockerFacts, PortOwnership, requested_project,
  other_container, host_process, unknown_owner, DockerPortProbeResult, ContainerHealth, healthy,
  unhealthy, starting, no_health, DockerContainerProbeResult, ContainersResult, DiskStatus,
  disk_available, disk_unavailable, disk_not_requested, DockerPreflightDiskResult, PreflightIntent,
  create, update, inspect, ComposeConfig, valid, invalid, config_unavailable, config_not_requested,
  FixedProbeResult, info_result, preflight_result, FixedProbeKind, target_info, docker_preflight,
  Overall, ready, degraded, blocked, DockerPreflightProbeResult,
}
use enhanced_ssh.ProbeParser.Fields.{
  Fields, parse_error, no_pattern, required_boolean, optional_text, optional_safe_integer,
  required_enum,
}
use enhanced_ssh.ProbeParser.Frame.{Codec, parse_frame}
use enhanced_ssh.ProbeParser.Facts.{
  is_defined, same, platforms, read_docker_facts, docker_warnings, warn_if, is_remote,
  parse_target_info,
}
use enhanced_ssh.ProbeParser.Ports.{
  read_ports, is_listener, is_unknown_state, is_requested_project, is_container_owned,
}
use enhanced_ssh.ProbeParser.Containers.{read_containers, is_unavailable}

abbrev pub disk_statuses : List (String × DiskStatus)
disk_statuses =
    ("available", disk_available)
    ∷ ("unavailable", disk_unavailable)
    ∷ ("not-requested", disk_not_requested)
    ∷ []

abbrev pub is_disk_available : DiskStatus → Bool
is_disk_available disk_available = true
is_disk_available disk_unavailable = false
is_disk_available disk_not_requested = false

abbrev pub is_disk_unavailable : DiskStatus → Bool
is_disk_unavailable disk_unavailable = true
is_disk_unavailable disk_available = false
is_disk_unavailable disk_not_requested = false

-- The tests of `readPreflightDisk`.
unfoldable pub check_disk : DiskStatus → Option String → Option ℕ → Option ℕ → Result (Unit {0})
check_disk disk_available (some path) (some total) (some available) =
    require (leb available total) (parse_error "Probe returned impossible disk information")
check_disk disk_available none total available =
    err (parse_error "Available disk results must include size information")
check_disk disk_available (some path) none available =
    err (parse_error "Available disk results must include size information")
check_disk disk_available (some path) (some total) none =
    err (parse_error "Available disk results must include size information")
check_disk disk_unavailable path total available =
    require (not (is_defined path || is_defined total || is_defined available))
      (parse_error "Unavailable disk results must not include size information")
check_disk disk_not_requested path total available =
    require (not (is_defined path || is_defined total || is_defined available))
      (parse_error "Unavailable disk results must not include size information")

unfoldable pub read_preflight_disk : Fields → Result DockerPreflightDiskResult
read_preflight_disk fields = do
  status ← required_enum fields "disk.status" disk_statuses
  path ← optional_text fields "disk.path" 4096 no_pattern
  total ← optional_safe_integer fields "disk.totalBytes"
  available ← optional_safe_integer fields "disk.availableBytes"
  required ← optional_safe_integer fields "disk.requiredBytes"
  check_disk status path total available
  ok (record {
    status = status;
    path = path;
    total_bytes = total;
    available_bytes = available;
    required_bytes = required;
  })

abbrev pub is_create : PreflightIntent → Bool
is_create create = true
is_create update = false
is_create inspect = false

abbrev pub is_known_owner : PortOwnership → Bool
is_known_owner unknown_owner = false
is_known_owner requested_project = true
is_known_owner other_container = true
is_known_owner host_process = true

unfoldable pub is_port_conflict : PreflightIntent → DockerPortProbeResult → Bool
is_port_conflict intent entry =
    if is_requested_project entry.ownership && not (is_create intent)
    then false
    else is_known_owner entry.ownership || is_listener entry.observation

abbrev pub is_invalid : ComposeConfig → Bool
is_invalid invalid = true
is_invalid valid = false
is_invalid config_unavailable = false
is_invalid config_not_requested = false

abbrev pub is_config_unavailable : ComposeConfig → Bool
is_config_unavailable config_unavailable = true
is_config_unavailable valid = false
is_config_unavailable invalid = false
is_config_unavailable config_not_requested = false

abbrev pub is_config_not_requested : ComposeConfig → Bool
is_config_not_requested config_not_requested = true
is_config_not_requested valid = false
is_config_not_requested invalid = false
is_config_not_requested config_unavailable = false

abbrev pub is_unhealthy : ContainerHealth → Bool
is_unhealthy unhealthy = true
is_unhealthy healthy = false
is_unhealthy starting = false
is_unhealthy no_health = false

abbrev pub is_starting : ContainerHealth → Bool
is_starting starting = true
is_starting healthy = false
is_starting unhealthy = false
is_starting no_health = false

abbrev pub some_port : (DockerPortProbeResult → Bool) → List DockerPortProbeResult → Bool
some_port p ports = any p ports

abbrev pub some_item : (ContainerHealth → Bool) → ContainersResult → Bool
some_item p containers =
    any (λ (entry : DockerContainerProbeResult). p entry.health) containers.items

-- requiredBytes is defined, and availableBytes is not, or is below it.
unfoldable pub lacks_space : Option ℕ → Option ℕ → Bool
lacks_space none available = false
lacks_space (some required) none = true
lacks_space (some required) (some available) = ltb available required

unfoldable pub is_blocked :
    ProbeDockerFacts
    → ComposeConfig
    → PreflightIntent
    → List DockerPortProbeResult
    → ContainersResult
    → DockerPreflightDiskResult
    → Bool
is_blocked docker config intent ports containers disk =
    not docker.installed
    || not docker.daemon_reachable
    || not docker.compose.installed
    || is_invalid config
    || is_config_unavailable config
    || some_port (is_port_conflict intent) ports
    || some_item is_unhealthy containers
    || lacks_space disk.required_bytes disk.available_bytes

unfoldable pub is_degraded :
    ProbeDockerFacts
    → List DockerPortProbeResult
    → ContainersResult
    → DockerPreflightDiskResult
    → Bool
is_degraded docker ports containers disk =
    is_remote docker.context_scope
    || some_port (λ e. is_unknown_state e.observation) ports
    || is_unavailable containers.status
    || containers.truncated
    || some_item is_starting containers
    || is_disk_unavailable disk.status

unfoldable pub derive_overall :
    ProbeDockerFacts
    → ComposeConfig
    → PreflightIntent
    → List DockerPortProbeResult
    → ContainersResult
    → DockerPreflightDiskResult
    → Overall
derive_overall docker config intent ports containers disk =
    if is_blocked docker config intent ports containers disk
    then blocked
    else if is_degraded docker ports containers disk
    then degraded
    else ready

unfoldable pub disk_warnings : DockerPreflightDiskResult → List ProbeWarningCode
disk_warnings disk =
    if is_defined disk.required_bytes && not (is_disk_available disk.status)
    then required_disk_space_unavailable ∷ []
    else warn_if
        (is_defined disk.available_bytes && lacks_space disk.required_bytes disk.available_bytes)
        required_disk_space_insufficient

unfoldable pub preflight_warnings :
    ProbeDockerFacts
    → ComposeConfig
    → PreflightIntent
    → List DockerPortProbeResult
    → ContainersResult
    → DockerPreflightDiskResult
    → List ProbeWarningCode
preflight_warnings docker config intent ports containers disk =
    docker_warnings docker
    ++ (warn_if (is_invalid config) compose_config_invalid
        ++ (warn_if (is_config_unavailable config) compose_config_unavailable
            ++ (warn_if (some_port (λ e. is_unknown_state e.observation) ports) port_state_unknown
                ++ (warn_if (some_port (is_port_conflict intent) ports) port_listener_observed
                    ++ (warn_if (is_unavailable containers.status) container_state_unavailable
                        ++ (warn_if (some_item is_unhealthy containers) container_unhealthy
                            ++ (warn_if (some_item is_starting containers) container_starting
                                ++ (warn_if containers.truncated container_list_truncated
                                    ++ disk_warnings disk))))))))

abbrev pub intents : List (String × PreflightIntent)
intents = ("create", create) ∷ ("update", update) ∷ ("inspect", inspect) ∷ []

abbrev pub configs : List (String × ComposeConfig)
configs =
    ("valid", valid)
    ∷ ("invalid", invalid)
    ∷ ("unavailable", config_unavailable)
    ∷ ("not-requested", config_not_requested)
    ∷ []

-- The rest of the parser, from the ports on.
unfoldable pub read_observations :
    Fields
    → FixedProbePlatform
    → ProbeDockerFacts
    → PreflightIntent
    → Bool
    → ComposeConfig
    → Result DockerPreflightProbeResult
read_observations fields platform docker intent requested config = do
  ports ← read_ports fields
  containers ← read_containers fields
  require (not (some_port (λ e. is_container_owned e.ownership) ports) || docker.daemon_reachable)
      (parse_error "Container port ownership requires a reachable daemon")
  require
      (not (some_port (λ e. is_requested_project e.ownership) ports)
        || is_defined containers.filter)
      (parse_error "Requested-project port ownership requires a project filter")
  disk ← read_preflight_disk fields
  ok (record {
    intent = intent;
    reported_platform = platform;
    overall = derive_overall docker config intent ports containers disk;
    docker = docker;
    requested = requested;
    config = config;
    ports = ports;
    containers = containers;
    disk = disk;
    warnings = preflight_warnings docker config intent ports containers disk;
  })

unfoldable pub parse_docker_preflight : Fields → Result DockerPreflightProbeResult
parse_docker_preflight fields = do
  platform ← required_enum fields "platform" platforms
  docker ← read_docker_facts fields
  intent ← required_enum fields "preflight.intent" intents
  requested ← required_boolean fields "compose.requested"
  config ← required_enum fields "compose.config" configs
  require (not (same requested (is_config_not_requested config)))
      (parse_error "Compose request and config status disagree")
  read_observations fields platform docker intent requested config

unfoldable pub parse_fixed_probe_output :
    Codec → (String → String) → FixedProbeKind → List ℕ → Result FixedProbeResult
parse_fixed_probe_output codec lower target_info output = do
  fields ← parse_frame codec target_info output
  result ← parse_target_info lower fields
  ok (info_result result)
parse_fixed_probe_output codec lower docker_preflight output = do
  fields ← parse_frame codec docker_preflight output
  result ← parse_docker_preflight fields
  ok (preflight_result result)
