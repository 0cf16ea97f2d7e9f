-- ===== src/ProbeParser/Ready.antt =====
-- What a target has that a preflight calls ready.
use enhanced_ssh.Prelude.{false, not, ◌≡◌, sym, arith, subst}
use enhanced_ssh.Result.{ok, bind-ok, require-ok, ok-injective}
use enhanced_ssh.ProbeParser.Types.{ProbeDockerFacts}
use enhanced_ssh.ProbeParser.Fields.{
  Fields, required_boolean, optional_text, optional_enum, no_pattern,
}
use enhanced_ssh.ProbeParser.Facts.{
  scopes, providers, docker_name_pattern, is_inconsistent, read_docker_facts,
}

pub read_docker_facts-consistent :
    (fields : Fields) (docker : ProbeDockerFacts)
    → read_docker_facts fields ≡ ok docker
    → is_inconsistent docker ≡ false
unfolding read_docker_facts
read_docker_facts-consistent fields docker e =
    let (installed, e1, s1) = bind-ok (required_boolean fields "docker.installed") _ (sym e) in
    let (reachable, e2, s2) = bind-ok (required_boolean fields "docker.daemonReachable") _ s1 in
    let (client, e3, s3) =
      bind-ok (optional_text fields "docker.clientVersion" 128 no_pattern) _ s2 in
    let (server, e4, s4) =
      bind-ok (optional_text fields "docker.serverVersion" 128 no_pattern) _ s3 in
    let (context, e5, s5) =
      bind-ok (optional_text fields "docker.contextName" 128 docker_name_pattern) _ s4 in
    let (scope, e6, s6) = bind-ok (optional_enum fields "docker.contextScope" scopes) _ s5 in
    let (composed, e7, s7) = bind-ok (required_boolean fields "compose.installed") _ s6 in
    let (provider, e8, s8) = bind-ok (optional_enum fields "compose.provider" providers) _ s7 in
    let (version, e9, s9) = bind-ok (optional_text fields "compose.version" 128 no_pattern) _ s8 in
    let (fine, done) = require-ok (not (is_inconsistent _)) _ _ (sym s9) in
    subst (λ d. is_inconsistent d ≡ false) (ok-injective done) (ground arith)
