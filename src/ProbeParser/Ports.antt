-- ===== src/ProbeParser/Ports.antt =====
-- `readPorts` of src/core/probe-parser.ts.
use enhanced_ssh.Prelude.{
  ℕ, zero, suc, Bool, true, false, not, ◌&&◌, ◌||◌, String, List, [], ◌∷◌, ◌++◌, ◌==◌, any,
}
use Prim.Native.String.{◌++◌ as append_text}
use enhanced_ssh.Result.{Result, ok, ◌>>=◌, ◌>>◌, require}
use enhanced_ssh.ProbeParser.Types.{
  PortProtocol, tcp, udp, PortObservation, listener_observed, not_observed, unknown_state,
  PortOwnership, requested_project, other_container, host_process, unknown_owner,
  DockerPortProbeResult,
}
use enhanced_ssh.ProbeParser.Fields.{
  Fields, parse_error, required_safe_integer, required_enum, index_text,
}
use enhanced_ssh.ProbeParser.Frame.{assert_dynamic_indexes}

abbrev pub protocols : List (String × PortProtocol)
protocols = ("tcp", tcp) ∷ ("udp", udp) ∷ []

abbrev pub observations : List (String × PortObservation)
observations =
    ("listener-observed", listener_observed)
    ∷ ("not-observed", not_observed)
    ∷ ("unknown", unknown_state)
    ∷ []

abbrev pub ownerships : List (String × PortOwnership)
ownerships =
    ("requested-project", requested_project)
    ∷ ("other-container", other_container)
    ∷ ("host-process", host_process)
    ∷ ("unknown", unknown_owner)
    ∷ []

abbrev pub is_listener : PortObservation → Bool
is_listener listener_observed = true
is_listener not_observed = false
is_listener unknown_state = false

abbrev pub is_unknown_state : PortObservation → Bool
is_unknown_state unknown_state = true
is_unknown_state listener_observed = false
is_unknown_state not_observed = false

abbrev pub is_host_process : PortOwnership → Bool
is_host_process host_process = true
is_host_process requested_project = false
is_host_process other_container = false
is_host_process unknown_owner = false

abbrev pub is_requested_project : PortOwnership → Bool
is_requested_project requested_project = true
is_requested_project other_container = false
is_requested_project host_process = false
is_requested_project unknown_owner = false

-- ownership === "requested-project" || ownership === "other-container"
abbrev pub is_container_owned : PortOwnership → Bool
is_container_owned requested_project = true
is_container_owned other_container = true
is_container_owned host_process = false
is_container_owned unknown_owner = false

abbrev pub same_protocol : PortProtocol → PortProtocol → Bool
same_protocol tcp tcp = true
same_protocol udp udp = true
same_protocol tcp udp = false
same_protocol udp tcp = false

-- seen.has(`${protocol}:${port}`)
abbrev pub is_seen : PortProtocol → ℕ → List DockerPortProbeResult → Bool
is_seen protocol port entries =
    any (λ (e : DockerPortProbeResult). same_protocol e.protocol protocol && e.port == port) entries

-- `port.${index}.${name}`
abbrev pub port_key : ℕ → String → String
port_key index name = append_text "port." (append_text (index_text index) (append_text "." name))

unfoldable pub read_port : Fields → ℕ → List DockerPortProbeResult → Result DockerPortProbeResult
read_port fields index entries = do
  protocol ← required_enum fields (port_key index "protocol") protocols
  port ← required_safe_integer fields (port_key index "port") 65535 1
  observation ← required_enum fields (port_key index "observation") observations
  ownership ← required_enum fields (port_key index "ownership") ownerships
  require (not (is_host_process ownership) || is_listener observation)
      (parse_error "Host-process port ownership requires a listener")
  require (not (is_seen protocol port entries)) (parse_error "Probe returned duplicate ports")
  ok (record { protocol = protocol; port = port; observation = observation; ownership = ownership })

-- The loop from `index`, with `rounds` indexes left.
unfoldable pub read_ports_from :
    Fields → ℕ → ℕ → List DockerPortProbeResult → Result (List DockerPortProbeResult)
read_ports_from fields index zero entries = ok entries
read_ports_from fields index (suc rounds) entries = do
  entry ← read_port fields index entries
  read_ports_from fields (suc index) rounds (entries ++ entry ∷ [])

unfoldable pub read_ports : Fields → Result (List DockerPortProbeResult)
read_ports fields = do
  count ← required_safe_integer fields "ports.count" 64 0
  assert_dynamic_indexes fields "port." count "port"
  read_ports_from fields 0 count []
