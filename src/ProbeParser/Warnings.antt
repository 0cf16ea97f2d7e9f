-- ===== src/ProbeParser/Warnings.antt =====
-- The warnings of a preflight, row by row: which of them block it, and whether there is any.
use enhanced_ssh.Prelude.{
  ℕ, Bool, true, false, not, ◌||◌, String, List, [], ◌∷◌, ◌++◌, Option, none, some, ◌≡◌, refl, ◌∙◌,
  ap, arith, any,
}
use enhanced_ssh.ProbeParser.Types.{
  ProbeWarningCode, machine_id_unavailable, hostname_unavailable, os_info_partial,
  disk_info_unavailable, docker_not_installed, docker_daemon_unreachable, docker_context_remote,
  compose_not_installed, compose_config_invalid, compose_config_unavailable, port_state_unknown,
  port_listener_observed, container_state_unavailable, container_unhealthy, container_starting,
  container_list_truncated, required_disk_space_unavailable, required_disk_space_insufficient,
  ProbeDockerFacts, DiskStatus, disk_available, disk_unavailable, disk_not_requested,
  DockerPreflightDiskResult,
}
use enhanced_ssh.ProbeParser.Facts.{is_defined, docker_warnings, warn_if, is_remote}
use enhanced_ssh.ProbeParser.Report.{is_disk_available, lacks_space, disk_warnings}

-- The warnings that stand for a reason not to go on.
abbrev pub is_blocking : ProbeWarningCode → Bool
is_blocking machine_id_unavailable = false
is_blocking hostname_unavailable = false
is_blocking os_info_partial = false
is_blocking disk_info_unavailable = false
is_blocking docker_not_installed = true
is_blocking docker_daemon_unreachable = true
is_blocking docker_context_remote = false
is_blocking compose_not_installed = true
is_blocking compose_config_invalid = true
is_blocking compose_config_unavailable = true
is_blocking port_state_unknown = false
is_blocking port_listener_observed = true
is_blocking container_state_unavailable = false
is_blocking container_unhealthy = true
is_blocking container_starting = false
is_blocking container_list_truncated = false
is_blocking required_disk_space_unavailable = true
is_blocking required_disk_space_insufficient = true

pub any-append :
    (p : ProbeWarningCode → Bool) (xs ys : List ProbeWarningCode)
    → any p (xs ++ ys) ≡ (any p xs || any p ys)
any-append p [] ys = refl
any-append p (x ∷ xs) ys = ground (arith, any-append p xs ys)

pub or_chain :
    (x a b c d e : Bool) → (x || (a || (b || (c || (d || e))))) ≡ (x || a || b || c || d || e)
or_chain x a b c d e = ground arith

-- The disk has a size exactly when it is reported available.
abbrev pub FitsDisk : DockerPreflightDiskResult → Type 0
FitsDisk disk = is_defined disk.available_bytes ≡ is_disk_available disk.status

blocking-sizes :
    (status : DiskStatus) (path : Option String) (total available required : Option ℕ)
    → is_defined available ≡ is_disk_available status
    → any is_blocking (
        disk_warnings (record {
          status = status;
          path = path;
          total_bytes = total;
          available_bytes = available;
          required_bytes = required;
        }))
      ≡ lacks_space required available
unfolding disk_warnings lacks_space
blocking-sizes disk_available path total (some a) none h = refl
blocking-sizes disk_available path total (some a) (some r) h = ground arith
blocking-sizes disk_available path total none required h = absurd (ground arith)
blocking-sizes disk_unavailable path total none none h = refl
blocking-sizes disk_unavailable path total none (some r) h = refl
blocking-sizes disk_unavailable path total (some a) required h = absurd (ground arith)
blocking-sizes disk_not_requested path total none none h = refl
blocking-sizes disk_not_requested path total none (some r) h = refl
blocking-sizes disk_not_requested path total (some a) required h = absurd (ground arith)

pub blocking-disk :
    (disk : DockerPreflightDiskResult)
    → FitsDisk disk
    → any is_blocking (disk_warnings disk) ≡ lacks_space disk.required_bytes disk.available_bytes
blocking-disk disk h =
    blocking-sizes disk.status disk.path disk.total_bytes disk.available_bytes disk.required_bytes h

pub blocking-docker :
    (docker : ProbeDockerFacts)
    → any is_blocking (docker_warnings docker)
      ≡ (not docker.installed || not docker.daemon_reachable || not docker.compose.installed)
unfolding docker_warnings
blocking-docker docker = ground arith

-- The blocking ones of a row of warnings in the order of the code, where `first` and `last` are those
-- on Docker and on the disk.
pub blocking-row :
    (first last : List ProbeWarningCode) (bad missing unknown conflict silent sick slow cut : Bool)
    → any is_blocking (
        first
        ++ (warn_if bad compose_config_invalid
            ++ (warn_if missing compose_config_unavailable
                ++ (warn_if unknown port_state_unknown
                    ++ (warn_if conflict port_listener_observed
                        ++ (warn_if silent container_state_unavailable
                            ++ (warn_if sick container_unhealthy
                                ++ (warn_if slow container_starting
                                    ++ (warn_if cut container_list_truncated ++ last)))))))))
      ≡ (any is_blocking first
          || (bad || (missing || (conflict || (sick || any is_blocking last)))))
blocking-row first last bad missing unknown conflict silent sick slow cut =
    any-append is_blocking first _ ∙ ap (λ r. any is_blocking first || r) (ground arith)

-- Whether there is any warning.
abbrev pub is_any : List ProbeWarningCode → Bool
is_any [] = false
is_any (w ∷ ws) = true

pub is_any-append : (xs ys : List ProbeWarningCode) → is_any (xs ++ ys) ≡ (is_any xs || is_any ys)
is_any-append [] ys = refl
is_any-append (x ∷ xs) ys = refl

pub any-row :
    (first last : List ProbeWarningCode) (bad missing unknown conflict silent sick slow cut : Bool)
    → is_any (
        first
        ++ (warn_if bad compose_config_invalid
            ++ (warn_if missing compose_config_unavailable
                ++ (warn_if unknown port_state_unknown
                    ++ (warn_if conflict port_listener_observed
                        ++ (warn_if silent container_state_unavailable
                            ++ (warn_if sick container_unhealthy
                                ++ (warn_if slow container_starting
                                    ++ (warn_if cut container_list_truncated ++ last)))))))))
      ≡ (is_any first
          || bad
          || missing
          || unknown
          || conflict
          || silent
          || sick
          || slow
          || cut
          || is_any last)
any-row first last bad missing unknown conflict silent sick slow cut =
    is_any-append first _ ∙ ground arith

pub any-docker :
    (docker : ProbeDockerFacts)
    → is_any (docker_warnings docker) ≡ (
        not docker.installed
        || not docker.daemon_reachable
        || not docker.compose.installed
        || is_remote docker.context_scope)
unfolding docker_warnings
any-docker docker = ground arith

pub any-sizes :
    (status : DiskStatus) (path : Option String) (total available required : Option ℕ)
    → is_defined available ≡ is_disk_available status
    → is_any (
        disk_warnings (record {
          status = status;
          path = path;
          total_bytes = total;
          available_bytes = available;
          required_bytes = required;
        }))
      ≡ lacks_space required available
unfolding disk_warnings lacks_space
any-sizes disk_available path total (some a) none h = refl
any-sizes disk_available path total (some a) (some r) h = ground arith
any-sizes disk_available path total none required h = absurd (ground arith)
any-sizes disk_unavailable path total none none h = refl
any-sizes disk_unavailable path total none (some r) h = refl
any-sizes disk_unavailable path total (some a) required h = absurd (ground arith)
any-sizes disk_not_requested path total none none h = refl
any-sizes disk_not_requested path total none (some r) h = refl
any-sizes disk_not_requested path total (some a) required h = absurd (ground arith)

pub or_mix :
    (a b c remote bad missing unknown conflict silent sick slow cut lacking gone : Bool)
    → (a || b || c || remote || bad || missing || unknown || conflict || silent || sick || slow
        || cut || lacking || gone)
      ≡ (a
          || b
          || c
          || bad
          || missing
          || conflict
          || sick
          || lacking
          || (remote || unknown || silent || cut || slow || gone))
or_mix a b c remote bad missing unknown conflict silent sick slow cut lacking gone = ground arith
