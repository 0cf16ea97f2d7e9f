-- ===== src/ProbeParser/Types.antt =====
-- The results of src/core/probe-parser.ts.
use enhanced_ssh.Prelude.{ℕ, Bool, String, List, Option}

pub data FixedProbeKind : Type 0 where
  target_info docker_preflight : FixedProbeKind

pub data FixedProbePlatform : Type 0 where
  windows linux macos : FixedProbePlatform

pub data ProbeWarningCode : Type 0 where
  machine_id_unavailable hostname_unavailable os_info_partial : ProbeWarningCode
  disk_info_unavailable docker_not_installed docker_daemon_unreachable : ProbeWarningCode
  docker_context_remote compose_not_installed compose_config_invalid : ProbeWarningCode
  compose_config_unavailable port_state_unknown port_listener_observed : ProbeWarningCode
  container_state_unavailable container_unhealthy container_starting : ProbeWarningCode
  container_list_truncated required_disk_space_unavailable : ProbeWarningCode
  required_disk_space_insufficient : ProbeWarningCode

pub record ProbeOperatingSystemInfo : Type 0 where
  pub name : Option String
  pub version : Option String
  pub build : Option String
  pub kernel : Option String
  pub architecture : Option String

pub record ProbeDiskInfo : Type 0 where
  pub path : String
  pub total_bytes : ℕ
  pub available_bytes : ℕ

pub data ContextScope : Type 0 where
  local_scope remote_scope unknown_scope : ContextScope

pub data ComposeProvider : Type 0 where
  plugin standalone : ComposeProvider

pub record ComposeFacts : Type 0 where
  pub installed : Bool
  pub provider : Option ComposeProvider
  pub version : Option String

pub record ProbeDockerFacts : Type 0 where
  pub installed : Bool
  pub daemon_reachable : Bool
  pub client_version : Option String
  pub server_version : Option String
  pub context_name : Option String
  pub context_scope : Option ContextScope
  pub compose : ComposeFacts

pub record TargetInfoProbeResult : Type 0 where
  pub reported_platform : FixedProbePlatform
  pub native_machine_id : Option String
  pub hostname : Option String
  pub os : ProbeOperatingSystemInfo
  pub disk : Option ProbeDiskInfo
  pub docker : ProbeDockerFacts
  pub warnings : List ProbeWarningCode

pub data PortProtocol : Type 0 where
  tcp udp : PortProtocol

pub data PortObservation : Type 0 where
  listener_observed not_observed unknown_state : PortObservation

pub data PortOwnership : Type 0 where
  requested_project other_container host_process unknown_owner : PortOwnership

pub record DockerPortProbeResult : Type 0 where
  pub protocol : PortProtocol
  pub port : ℕ
  pub observation : PortObservation
  pub ownership : PortOwnership

pub data ContainerState : Type 0 where
  created restarting running removing paused exited dead : ContainerState

pub data ContainerHealth : Type 0 where
  healthy unhealthy starting no_health : ContainerHealth

pub record DockerContainerProbeResult : Type 0 where
  pub name : String
  pub service : Option String
  pub state : ContainerState
  pub health : ContainerHealth

pub data ContainersStatus : Type 0 where
  containers_ok containers_unavailable containers_not_requested : ContainersStatus

pub record ContainersResult : Type 0 where
  pub status : ContainersStatus
  pub filter : Option String
  pub items : List DockerContainerProbeResult
  pub truncated : Bool

pub data DiskStatus : Type 0 where
  disk_available disk_unavailable disk_not_requested : DiskStatus

pub record DockerPreflightDiskResult : Type 0 where
  pub status : DiskStatus
  pub path : Option String
  pub total_bytes : Option ℕ
  pub available_bytes : Option ℕ
  pub required_bytes : Option ℕ

pub data PreflightIntent : Type 0 where
  create update inspect : PreflightIntent

pub data ComposeConfig : Type 0 where
  valid invalid config_unavailable config_not_requested : ComposeConfig

pub data Overall : Type 0 where
  ready degraded blocked : Overall

-- `docker` holds `daemon` and the facts on compose; `requested` and `config` are those of compose.
pub record DockerPreflightProbeResult : Type 0 where
  pub intent : PreflightIntent
  pub reported_platform : FixedProbePlatform
  pub overall : Overall
  pub docker : ProbeDockerFacts
  pub requested : Bool
  pub config : ComposeConfig
  pub ports : List DockerPortProbeResult
  pub containers : ContainersResult
  pub disk : DockerPreflightDiskResult
  pub warnings : List ProbeWarningCode

pub data FixedProbeResult : Type 0 where
  info_result : TargetInfoProbeResult → FixedProbeResult
  preflight_result : DockerPreflightProbeResult → FixedProbeResult
