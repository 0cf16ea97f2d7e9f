-- ===== src/ProbeParser/Containers.antt =====
-- `readContainers` of src/core/probe-parser.ts.
use enhanced_ssh.Prelude.{
  ℕ, zero, suc, Bool, true, false, not, ◌&&◌, ◌||◌, String, List, [], ◌∷◌, ◌++◌, Option, none, some,
  leb, ◌==◌, if◌then◌else◌, length, codes,
}
use Prim.Native.Char.{code}
use Prim.Native.String.{◌++◌ as append_text}
use enhanced_ssh.Result.{Result, ok, err, ◌>>=◌, ◌>>◌, require}
use enhanced_ssh.ProbeParser.Types.{
  ContainerState, created, restarting, running, removing, paused, exited, dead, ContainerHealth,
  healthy, unhealthy, starting, no_health, DockerContainerProbeResult, ContainersStatus,
  containers_ok, containers_unavailable, containers_not_requested, ContainersResult,
}
use enhanced_ssh.ProbeParser.Fields.{
  Fields, Pattern, parse_error, no_pattern, name_pattern, required_text, required_boolean,
  optional_text, required_safe_integer, enum_value, required_enum, index_text, is_digit,
}
use enhanced_ssh.ProbeParser.Frame.{assert_dynamic_indexes, split_first, strip_prefix}
use enhanced_ssh.ProbeParser.Facts.{is_defined, same, docker_name_pattern}

abbrev pub states : List (String × ContainerState)
states =
    ("created", created)
    ∷ ("restarting", restarting)
    ∷ ("running", running)
    ∷ ("removing", removing)
    ∷ ("paused", paused)
    ∷ ("exited", exited)
    ∷ ("dead", dead)
    ∷ []

abbrev pub healths : List (String × ContainerHealth)
healths =
    ("healthy", healthy)
    ∷ ("unhealthy", unhealthy)
    ∷ ("starting", starting)
    ∷ ("none", no_health)
    ∷ []

abbrev pub statuses : List (String × ContainersStatus)
statuses =
    ("ok", containers_ok)
    ∷ ("unavailable", containers_unavailable)
    ∷ ("not-requested", containers_not_requested)
    ∷ []

abbrev is_lower_alphanumeric : ℕ → Bool
is_lower_alphanumeric c = is_digit c || (leb b'a' c && leb c b'z')

abbrev is_project_character : ℕ → Bool
is_project_character c = is_lower_alphanumeric c || c == b'_' || c == b'-'

-- /^[a-z0-9][a-z0-9_-]{0,127}$/
abbrev pub service_pattern : Pattern
service_pattern = name_pattern is_lower_alphanumeric is_project_character 127

-- /^label=com\.docker\.compose\.project=[a-z0-9][a-z0-9_-]{0,62}$/, on the text itself.
unfoldable pub is_project_filter : String → Bool
is_project_filter text = elim (strip_prefix "label=com.docker.compose.project=" text) [
  | none ↦ false
  | some project ↦ name_pattern is_lower_alphanumeric is_project_character 62 (codes project)
]

-- A name without the slash that Docker puts before it.
unfoldable pub bare_name : String → String
bare_name String.[] = ""
bare_name (String.◌∷◌ c name) = if code c == b'/' then name else String.◌∷◌ c name

-- record.split("|") into four parts.
unfoldable pub four_parts : String → Option (String × String × String × String)
four_parts text = elim (split_first b'|' text) [
  | none ↦ none
  | some (a, rest) ↦ elim (split_first b'|' rest) [
    | none ↦ none
    | some (b, more) ↦ elim (split_first b'|' more) [
      | none ↦ none
      | some (c, d) ↦ elim (split_first b'|' d) [ none ↦ some (a, b, c, d) | some e ↦ none ]
    ]
  ]
]

unfoldable pub read_container_parts :
    String → String → String → String → Result DockerContainerProbeResult
read_container_parts raw_name state_text health_text service = do
  let name = bare_name raw_name
  require (docker_name_pattern (codes name))
      (parse_error "Probe returned an invalid container name")
  state ← enum_value state_text states
  health ← enum_value health_text healths
  require (length (codes service) == 0 || service_pattern (codes service))
      (parse_error "Probe returned an invalid Compose service name")
  ok (record {
    name = name;
    service = if length (codes service) == 0 then none else some service;
    state = state;
    health = health;
  })

unfoldable pub read_container : Fields → ℕ → Result DockerContainerProbeResult
read_container fields index = do
  text ←
      required_text fields (append_text "container." (append_text (index_text index) ".record"))
        1024 no_pattern
  elim (four_parts text) [
    | none ↦ err (parse_error "Probe returned a malformed container record")
    | some (a, b, c, d) ↦ read_container_parts a b c d
  ]

unfoldable pub read_containers_from :
    Fields → ℕ → ℕ → List DockerContainerProbeResult → Result (List DockerContainerProbeResult)
read_containers_from fields index zero items = ok items
read_containers_from fields index (suc rounds) items = do
  item ← read_container fields index
  read_containers_from fields (suc index) rounds (items ++ item ∷ [])

abbrev pub is_ok_status : ContainersStatus → Bool
is_ok_status containers_ok = true
is_ok_status containers_unavailable = false
is_ok_status containers_not_requested = false

abbrev pub is_not_requested : ContainersStatus → Bool
is_not_requested containers_not_requested = true
is_not_requested containers_ok = false
is_not_requested containers_unavailable = false

abbrev pub is_unavailable : ContainersStatus → Bool
is_unavailable containers_unavailable = true
is_unavailable containers_ok = false
is_unavailable containers_not_requested = false

-- optionalText with the pattern of project filters.
unfoldable pub optional_filter : Fields → Result (Option String)
optional_filter fields = do
  filter ← optional_text fields "containers.filter" 128 no_pattern
  elim filter [
    | none ↦ ok none
    | some text ↦ do
      require (is_project_filter text)
          (parse_error "Probe returned an invalid value for containers.filter")
      ok (some text)
  ]

unfoldable pub read_containers : Fields → Result ContainersResult
read_containers fields = do
  status ← required_enum fields "containers.status" statuses
  count ← required_safe_integer fields "containers.count" 100 0
  truncated ← required_boolean fields "containers.truncated"
  filter ← optional_filter fields
  assert_dynamic_indexes fields "container." count "container"
  require (is_ok_status status || (count == 0 && not truncated))
      (parse_error "Unavailable container results must be empty")
  require (same (is_not_requested status) (not (is_defined filter)))
      (parse_error "Container status and project filter disagree")
  items ← read_containers_from fields 0 count []
  ok (record { status = status; filter = filter; items = items; truncated = truncated })
