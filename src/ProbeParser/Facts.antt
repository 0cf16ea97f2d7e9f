-- ===== src/ProbeParser/Facts.antt =====
-- `parseTargetInfo` of src/core/probe-parser.ts and the readers it shares with the preflight.
use enhanced_ssh.Prelude.{
  ℕ, Bool, true, false, not, ◌&&◌, ◌||◌, String, List, [], ◌∷◌, ◌++◌, Option, none, some, leb, ◌==◌,
  if◌then◌else◌, codes, is_alphanumeric,
}
use enhanced_ssh.Result.{Result, ok, err, ◌>>=◌, ◌>>◌, require}
use enhanced_ssh.ProbeParser.Types.{
  FixedProbePlatform, windows, linux, macos, ProbeWarningCode, machine_id_unavailable,
  hostname_unavailable, os_info_partial, disk_info_unavailable, docker_not_installed,
  docker_daemon_unreachable, docker_context_remote, compose_not_installed, ProbeOperatingSystemInfo,
  ProbeDiskInfo, ContextScope, local_scope, remote_scope, unknown_scope, ComposeProvider, plugin,
  standalone, ProbeDockerFacts, TargetInfoProbeResult,
}
use enhanced_ssh.ProbeParser.Fields.{
  Fields, Pattern, parse_error, no_pattern, name_pattern, is_digit, required_boolean, optional_text,
  optional_safe_integer, required_enum, optional_enum,
}

-- Whether an optional value is defined.
abbrev pub is_defined {ℓ} : {A : Type ℓ} → Option A → Bool
is_defined none = false
is_defined (some a) = true

abbrev pub same : Bool → Bool → Bool
same true b = b
same false b = not b

abbrev pub platforms : List (String × FixedProbePlatform)
platforms = ("windows", windows) ∷ ("linux", linux) ∷ ("macos", macos) ∷ []

abbrev pub is_hex : ℕ → Bool
is_hex c = is_digit c || (leb b'A' c && leb c b'F') || (leb b'a' c && leb c b'f')

-- A text of a given shape: hexadecimal digits where the shape has an x, else the same character.
unfoldable pub has_shape : (ℕ → Bool) → List ℕ → Pattern
has_shape digits [] [] = true
has_shape digits [] (c ∷ cs) = false
has_shape digits (s ∷ shape) [] = false
has_shape digits (s ∷ shape) (c ∷ cs) =
    (if s == b'x' then digits c else c == s) && has_shape digits shape cs

abbrev pub plain_shape : List ℕ
plain_shape = codes "xxxxxxxxxxxxxxxxxxxxxxxxxxxxxxxx"

abbrev pub dashed_shape : List ℕ
dashed_shape = codes "xxxxxxxx-xxxx-xxxx-xxxx-xxxxxxxxxxxx"

abbrev pub shape_of : FixedProbePlatform → List ℕ
shape_of linux = plain_shape
shape_of windows = dashed_shape
shape_of macos = dashed_shape

-- /^0+(?:-0+)*$/; `wanted` is whether a zero must come next.
unfoldable pub is_zero_id : Bool → Pattern
is_zero_id wanted [] = not wanted
is_zero_id wanted (c ∷ cs) =
    let rest = is_zero_id (c == b'-') cs in
    if c == b'0' then rest else c == b'-' && not wanted && rest

unfoldable pub is_native_machine_id : FixedProbePlatform → Pattern
is_native_machine_id platform value =
    has_shape is_hex (shape_of platform) value && not (is_zero_id true value)

abbrev is_name_character : ℕ → Bool
is_name_character c = is_alphanumeric c || c == b'.' || c == b'_' || c == b'-'

-- /^[A-Za-z0-9][A-Za-z0-9._-]{0,254}$/
abbrev pub hostname_pattern : Pattern
hostname_pattern = name_pattern is_alphanumeric is_name_character 254

-- /^[A-Za-z0-9][A-Za-z0-9_.-]{0,127}$/, of contexts and of containers.
abbrev pub docker_name_pattern : Pattern
docker_name_pattern = name_pattern is_alphanumeric is_name_character 127

unfoldable pub read_operating_system : Fields → Result ProbeOperatingSystemInfo
read_operating_system fields = do
  name ← optional_text fields "os.name" 256 no_pattern
  version ← optional_text fields "os.version" 128 no_pattern
  build ← optional_text fields "os.build" 128 no_pattern
  kernel ← optional_text fields "os.kernel" 256 no_pattern
  architecture ← optional_text fields "os.architecture" 128 no_pattern
  ok (record {
    name = name;
    version = version;
    build = build;
    kernel = kernel;
    architecture = architecture;
  })

-- All three values, none of them, or an error.
unfoldable pub complete_disk : Option String → Option ℕ → Option ℕ → Result (Option ProbeDiskInfo)
complete_disk none none none = ok none
complete_disk (some path) (some total) (some available) = do
  require (leb available total) (parse_error "Probe returned impossible disk information")
  ok (some (record { path = path; total_bytes = total; available_bytes = available }))
complete_disk none none (some a) = err (parse_error "Probe returned incomplete disk information")
complete_disk none (some t) none = err (parse_error "Probe returned incomplete disk information")
complete_disk none (some t) (some a) =
    err (parse_error "Probe returned incomplete disk information")
complete_disk (some p) none none = err (parse_error "Probe returned incomplete disk information")
complete_disk (some p) none (some a) =
    err (parse_error "Probe returned incomplete disk information")
complete_disk (some p) (some t) none =
    err (parse_error "Probe returned incomplete disk information")

unfoldable pub read_complete_disk : Fields → Result (Option ProbeDiskInfo)
read_complete_disk fields = do
  path ← optional_text fields "disk.path" 4096 no_pattern
  total ← optional_safe_integer fields "disk.totalBytes"
  available ← optional_safe_integer fields "disk.availableBytes"
  complete_disk path total available

abbrev pub scopes : List (String × ContextScope)
scopes = ("local", local_scope) ∷ ("remote", remote_scope) ∷ ("unknown", unknown_scope) ∷ []

abbrev pub providers : List (String × ComposeProvider)
providers = ("plugin", plugin) ∷ ("standalone", standalone) ∷ []

-- The condition under which `readDockerFacts` fails.
unfoldable pub is_inconsistent : ProbeDockerFacts → Bool
is_inconsistent d =
    (not d.installed
      && (d.daemon_reachable || is_defined d.client_version || is_defined d.server_version))
    || (d.daemon_reachable && not (is_defined d.server_version))
    || (not d.daemon_reachable && (is_defined d.context_name || is_defined d.context_scope))
    || not (same (is_defined d.context_name) (is_defined d.context_scope))
    || not (same d.compose.installed (is_defined d.compose.provider))
    || (not d.compose.installed && is_defined d.compose.version)

unfoldable pub read_docker_facts : Fields → Result ProbeDockerFacts
read_docker_facts fields = do
  installed ← required_boolean fields "docker.installed"
  daemon_reachable ← required_boolean fields "docker.daemonReachable"
  client_version ← optional_text fields "docker.clientVersion" 128 no_pattern
  server_version ← optional_text fields "docker.serverVersion" 128 no_pattern
  context_name ← optional_text fields "docker.contextName" 128 docker_name_pattern
  context_scope ← optional_enum fields "docker.contextScope" scopes
  compose_installed ← required_boolean fields "compose.installed"
  provider ← optional_enum fields "compose.provider" providers
  compose_version ← optional_text fields "compose.version" 128 no_pattern
  let facts : ProbeDockerFacts = record {
    installed = installed;
    daemon_reachable = daemon_reachable;
    client_version = client_version;
    server_version = server_version;
    context_name = context_name;
    context_scope = context_scope;
    compose = record {
      installed = compose_installed;
      provider = provider;
      version = compose_version;
    };
  }
  require (not (is_inconsistent facts))
      (parse_error "Probe returned inconsistent Docker information")
  ok facts

-- warnings.push(warning) under a condition.
abbrev pub warn_if : Bool → ProbeWarningCode → List ProbeWarningCode
warn_if true warning = warning ∷ []
warn_if false warning = []

abbrev pub is_remote : Option ContextScope → Bool
is_remote (some remote_scope) = true
is_remote (some local_scope) = false
is_remote (some unknown_scope) = false
is_remote none = false

-- What `appendDockerWarnings` appends.
unfoldable pub docker_warnings : ProbeDockerFacts → List ProbeWarningCode
docker_warnings docker =
    (if not docker.installed
      then docker_not_installed ∷ []
      else warn_if (not docker.daemon_reachable) docker_daemon_unreachable)
    ++ (warn_if (is_remote docker.context_scope) docker_context_remote
        ++ warn_if (not docker.compose.installed) compose_not_installed)

abbrev pub native_id_fits : FixedProbePlatform → Option String → Bool
native_id_fits platform none = true
native_id_fits platform (some id) = is_native_machine_id platform (codes id)

-- `lower` is JavaScript's `toLowerCase`.
unfoldable pub parse_target_info : (String → String) → Fields → Result TargetInfoProbeResult
parse_target_info lower fields = do
  platform ← required_enum fields "platform" platforms
  native_id ← optional_text fields "machine.nativeId" 128 no_pattern
  require (native_id_fits platform native_id)
      (parse_error "Probe returned an invalid native machine ID")
  hostname ← optional_text fields "machine.hostname" 255 hostname_pattern
  os ← read_operating_system fields
  disk ← read_complete_disk fields
  docker ← read_docker_facts fields
  let normalized : Option String = elim native_id [ none ↦ none | some id ↦ some (lower id) ]
  let warnings =
      warn_if (not (is_defined native_id)) machine_id_unavailable
      ++ (warn_if (not (is_defined hostname)) hostname_unavailable
          ++ (warn_if (not (is_defined os.name) || not (is_defined os.version)) os_info_partial
              ++ (warn_if (not (is_defined disk)) disk_info_unavailable ++ docker_warnings docker)))
  ok (record {
    reported_platform = platform;
    native_machine_id = normalized;
    hostname = hostname;
    os = os;
    disk = disk;
    docker = docker;
    warnings = warnings;
  })
