-- ===== src/ProbeParser/Verdict.antt =====
-- The verdict of a preflight against its warnings, which the code derives apart.
use enhanced_ssh.Prelude.{
  Bool, true, false, not, ◌||◌, List, ◌≡◌, refl, sym, ◌∙◌, ap, ap₂, subst, arith, if◌then◌else◌,
  any,
}
use enhanced_ssh.Result.{ok, bind-ok, require-ok, ok-injective}
use enhanced_ssh.ProbeParser.Types.{
  ProbeWarningCode, ProbeDockerFacts, DockerPortProbeResult, ContainersResult, DiskStatus,
  DockerPreflightDiskResult, PreflightIntent, ComposeConfig, FixedProbePlatform, Overall, ready,
  degraded, blocked, DockerPreflightProbeResult,
}
use enhanced_ssh.ProbeParser.Fields.{Fields, required_enum, required_boolean}
use enhanced_ssh.ProbeParser.Facts.{
  platforms, read_docker_facts, is_defined, same, docker_warnings, is_remote,
}
use enhanced_ssh.ProbeParser.Ports.{
  is_unknown_state, read_ports, is_container_owned, is_requested_project,
}
use enhanced_ssh.ProbeParser.Containers.{is_unavailable, read_containers}
use enhanced_ssh.ProbeParser.Report.{
  intents, configs, is_config_not_requested, is_disk_unavailable, read_preflight_disk,
  is_port_conflict, is_invalid, is_config_unavailable, is_unhealthy, is_starting, some_port,
  some_item, lacks_space, is_blocked, is_degraded, derive_overall, disk_warnings,
  preflight_warnings, parse_docker_preflight, read_observations,
}
use enhanced_ssh.ProbeParser.Disk.{read_preflight_disk-FitSizes, FitSizes-defined}
use enhanced_ssh.ProbeParser.Warnings.{
  is_blocking, FitsDisk, or_chain, blocking-disk, blocking-docker, blocking-row, is_any, any-row,
  any-docker, any-sizes, or_mix,
}

module _ (docker : ProbeDockerFacts) (config : ComposeConfig) (intent : PreflightIntent)
    (ports : List DockerPortProbeResult) (containers : ContainersResult)
    (disk : DockerPreflightDiskResult) where
  blocking-warnings :
      FitsDisk disk
      → any is_blocking (preflight_warnings docker config intent ports containers disk)
        ≡ is_blocked docker config intent ports containers disk
  unfolding preflight_warnings is_blocked
  blocking-warnings h =
      blocking-row (docker_warnings docker) (disk_warnings disk) (is_invalid config)
        (is_config_unavailable config) _ (some_port (is_port_conflict intent) ports) _
        (some_item is_unhealthy containers) _ _
      ∙ ap₂
          (λ x y.
            x
            || (is_invalid config
                || (is_config_unavailable config
                    || (some_port (is_port_conflict intent) ports
                        || (some_item is_unhealthy containers || y)))))
          (blocking-docker docker) (blocking-disk disk h)
      ∙ or_chain _ (is_invalid config) (is_config_unavailable config)
          (some_port (is_port_conflict intent) ports) (some_item is_unhealthy containers)
          (lacks_space disk.required_bytes disk.available_bytes)

  any-warnings :
      FitsDisk disk
      → (is_any (preflight_warnings docker config intent ports containers disk)
          || is_disk_unavailable disk.status)
        ≡ (is_blocked docker config intent ports containers disk
            || is_degraded docker ports containers disk)
  unfolding preflight_warnings is_blocked is_degraded
  any-warnings h =
      ap (λ x. x || is_disk_unavailable disk.status)
        (any-row (docker_warnings docker) (disk_warnings disk) (is_invalid config)
            (is_config_unavailable config) (some_port (λ e. is_unknown_state e.observation) ports)
            (some_port (is_port_conflict intent) ports) (is_unavailable containers.status)
            (some_item is_unhealthy containers) (some_item is_starting containers)
            containers.truncated
          ∙ ap₂
              (λ x y.
                x
                || is_invalid config
                || is_config_unavailable config
                || some_port (λ e. is_unknown_state e.observation) ports
                || some_port (is_port_conflict intent) ports
                || is_unavailable containers.status
                || some_item is_unhealthy containers
                || some_item is_starting containers
                || containers.truncated
                || y)
              (any-docker docker)
              (any-sizes disk.status disk.path disk.total_bytes disk.available_bytes
                disk.required_bytes h))
      ∙ or_mix (not docker.installed) (not docker.daemon_reachable) (not docker.compose.installed)
          (is_remote docker.context_scope) (is_invalid config) (is_config_unavailable config)
          (some_port (λ e. is_unknown_state e.observation) ports)
          (some_port (is_port_conflict intent) ports) (is_unavailable containers.status)
          (some_item is_unhealthy containers) (some_item is_starting containers)
          containers.truncated (lacks_space disk.required_bytes disk.available_bytes)
          (is_disk_unavailable disk.status)

-- The verdict that the warnings and the state of the disk amount to.
unfoldable pub verdict_of : List ProbeWarningCode → DiskStatus → Overall
verdict_of warnings status =
    if any is_blocking warnings
    then blocked
    else if is_any warnings || is_disk_unavailable status
    then degraded
    else ready

verdict-agrees :
    (blocks degrades x y : Bool)
    → x ≡ blocks
    → y ≡ (blocks || degrades)
    → (if blocks then blocked else if degrades then degraded else ready)
      ≡ (if x then blocked else if y then degraded else ready)
verdict-agrees true d true y p q = refl
verdict-agrees true d false y p q = absurd (ground arith)
verdict-agrees false d true y p q = absurd (ground arith)
verdict-agrees false true false true p q = refl
verdict-agrees false false false false p q = refl
verdict-agrees false true false false p q = absurd (ground arith)
verdict-agrees false false false true p q = absurd (ground arith)

derive_overall-verdict_of :
    (docker : ProbeDockerFacts) (config : ComposeConfig) (intent : PreflightIntent)
    (ports : List DockerPortProbeResult) (containers : ContainersResult)
    (disk : DockerPreflightDiskResult)
    → FitsDisk disk
    → derive_overall docker config intent ports containers disk
      ≡ verdict_of (preflight_warnings docker config intent ports containers disk) disk.status
unfolding derive_overall verdict_of
derive_overall-verdict_of docker config intent ports containers disk h =
    verdict-agrees (is_blocked docker config intent ports containers disk)
      (is_degraded docker ports containers disk) _ _
      (blocking-warnings docker config intent ports containers disk h)
      (any-warnings docker config intent ports containers disk h)

-- What a report that is read holds: the facts as they were read and what is derived from them.
pub record Read (fields : Fields) (result : DockerPreflightProbeResult) : Type 0 where
  pub ports_read : read_ports fields ≡ ok result.ports
  pub containers_read : read_containers fields ≡ ok result.containers
  pub disk_read : read_preflight_disk fields ≡ ok result.disk
  pub owned :
      (not (some_port (λ e. is_container_owned e.ownership) result.ports)
        || result.docker.daemon_reachable)
      ≡ true
  pub project :
      (not (some_port (λ e. is_requested_project e.ownership) result.ports)
        || is_defined result.containers.filter)
      ≡ true
  pub overall_is :
      result.overall
      ≡ derive_overall result.docker result.config result.intent result.ports result.containers
          result.disk
  pub warnings_are :
      result.warnings
      ≡ preflight_warnings result.docker result.config result.intent result.ports result.containers
          result.disk

read_observations-Read :
    (fields : Fields) (platform : FixedProbePlatform) (docker : ProbeDockerFacts)
    (intent : PreflightIntent) (requested : Bool) (config : ComposeConfig)
    (result : DockerPreflightProbeResult)
    → read_observations fields platform docker intent requested config ≡ ok result
    → Read fields result × (result.docker ≡ docker)
unfolding read_observations
read_observations-Read fields platform docker intent requested config result e =
    let (ports, e1, s1) = bind-ok (read_ports fields) _ (sym e) in
    let (containers, e2, s2) = bind-ok (read_containers fields) _ s1 in
    let (reachable, s3) =
      require-ok
        (not (some_port (λ e. is_container_owned e.ownership) ports) || docker.daemon_reachable) _ _
        (sym s2) in
    let (filtered, s4) =
      require-ok
        (not (some_port (λ e. is_requested_project e.ownership) ports)
          || is_defined containers.filter)
        _ _ s3 in
    let (disk, e5, s5) = bind-ok (read_preflight_disk fields) _ (sym s4) in
    subst (λ r. Read fields r × (r.docker ≡ docker)) (ok-injective (sym s5))
      (
        record {
          ports_read = e1;
          containers_read = e2;
          disk_read = e5;
          owned = reachable;
          project = filtered;
          overall_is = refl;
          warnings_are = refl;
        },
        refl,
      )

pub parse_docker_preflight-Read :
    (fields : Fields) (result : DockerPreflightProbeResult)
    → parse_docker_preflight fields ≡ ok result
    → Read fields result × (read_docker_facts fields ≡ ok result.docker)
unfolding parse_docker_preflight
parse_docker_preflight-Read fields result e =
    let (platform, e1, s1) = bind-ok (required_enum fields "platform" platforms) _ (sym e) in
    let (docker, e2, s2) = bind-ok (read_docker_facts fields) _ s1 in
    let (intent, e3, s3) = bind-ok (required_enum fields "preflight.intent" intents) _ s2 in
    let (requested, e4, s4) = bind-ok (required_boolean fields "compose.requested") _ s3 in
    let (config, e5, s5) = bind-ok (required_enum fields "compose.config" configs) _ s4 in
    let (agree, s6) =
      require-ok (not (same requested (is_config_not_requested config))) _ _ (sym s5) in
    let (reads, is_docker) =
      read_observations-Read fields platform docker intent requested config result s6 in
    (reads, e2 ∙ ap (λ d. ok d) (sym is_docker))

-- The verdict of a preflight that is read, which the code derives from the facts, is the one that its
-- warnings and its disk give: blocked when one of the warnings is a blocking one, else degraded when
-- there is a warning at all or the disk is reported unavailable, else ready.
pub parse_docker_preflight-verdict_of :
    (fields : Fields) (result : DockerPreflightProbeResult)
    → parse_docker_preflight fields ≡ ok result
    → result.overall ≡ verdict_of result.warnings result.disk.status
parse_docker_preflight-verdict_of fields result e =
    let r = (parse_docker_preflight-Read fields result e).0 in
    r.overall_is
    ∙ derive_overall-verdict_of result.docker result.config result.intent result.ports
        result.containers result.disk
        (FitSizes-defined (read_preflight_disk-FitSizes fields result.disk r.disk_read))
    ∙ ap (λ w. verdict_of w result.disk.status) (sym r.warnings_are)
