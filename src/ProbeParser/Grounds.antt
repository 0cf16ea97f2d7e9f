-- ===== src/ProbeParser/Grounds.antt =====
-- What a client that asks for a preflight counts on when it is told that the target is ready.
use enhanced_ssh.Prelude.{Each, ℕ, ◌≤◌, true, false, String, Option, none, some, ◌≡◌, ◌≢◌, ◌⊎◌}
use enhanced_ssh.ProbeParser.Types.{
  ProbeDockerFacts, remote_scope, ComposeProvider, not_observed, unknown_state, requested_project,
  unknown_owner, DockerPortProbeResult, healthy, no_health, DockerContainerProbeResult,
  containers_ok, containers_not_requested, PreflightIntent, update, inspect, valid,
  config_not_requested, DockerPreflightProbeResult, disk_unavailable,
}

-- Docker and Compose can be used on the machine itself.
pub record Serves (docker : ProbeDockerFacts) : Type 0 where
  pub installed : docker.installed ≡ true
  pub reachable : docker.daemon_reachable ≡ true
  pub server : (version : String) × (docker.server_version ≡ some version)
  pub composed : docker.compose.installed ≡ true
  pub provided : (provider : ComposeProvider) × (docker.compose.provider ≡ some provider)
  pub near : docker.context_scope ≢ some remote_scope

-- A port is free when nothing listens on it and nobody is known to own it; an existing project that is
-- updated or inspected may hold its own ports.
pub data IsFree (intent : PreflightIntent) (entry : DockerPortProbeResult) : Type 0 where
  unused : entry.observation ≡ not_observed → entry.ownership ≡ unknown_owner → IsFree intent entry
  its_own :
      entry.ownership ≡ requested_project
      → entry.observation ≢ unknown_state
      → (intent ≡ update) ⊎ (intent ≡ inspect)
      → IsFree intent entry

-- A container is settled when it is healthy or has no health check.
abbrev pub IsSettled : DockerContainerProbeResult → Type 0
IsSettled entry = (entry.health ≡ healthy) ⊎ (entry.health ≡ no_health)

-- The disk has the room: none is asked for, or at least as many bytes are free.
pub data IsRoomy (required available : Option ℕ) : Type 0 where
  none_asked : required ≡ none → IsRoomy required available
  enough : (r a : ℕ) → required ≡ some r → available ≡ some a → r ≤ a → IsRoomy required available

pub record ReadyGrounds (r : DockerPreflightProbeResult) : Type 0 where
  pub serves : Serves r.docker
  pub config_holds : (r.config ≡ valid) ⊎ (r.config ≡ config_not_requested)
  pub ports_free : Each (IsFree r.intent) r.ports
  pub settled : Each IsSettled r.containers.items
  pub listed :
      (r.containers.status ≡ containers_ok) ⊎ (r.containers.status ≡ containers_not_requested)
  pub complete : r.containers.truncated ≡ false
  pub looked : r.disk.status ≢ disk_unavailable
  pub roomy : IsRoomy r.disk.required_bytes r.disk.available_bytes
