-- ===== src/ProbeParser/Bounds.antt =====
-- The bounds on what a preflight lists: ports, containers and the sizes of the disk.
use enhanced_ssh.Prelude.{
  ℕ, zero, suc, ◌+◌, ◌≤◌, Bool, true, false, not, ◌&&◌, ◌||◌, String, List, [], ◌∷◌, ◌++◌, ◌≡◌,
  refl, sym, subst, ◌∙◌, arith, leb, ◌==◌, all, length, length-append, codes, ==_iff, leb→le,
  le→leb,
}
use enhanced_ssh.Result.{ok, bind-ok, require-ok, then-ok, ok-injective}
use enhanced_ssh.RollingLog.{max_safe_integer}
use enhanced_ssh.ProbeParser.Types.{
  PortProtocol, tcp, udp, DockerPortProbeResult, DockerContainerProbeResult, ContainersResult,
  DockerPreflightProbeResult,
}
use enhanced_ssh.ProbeParser.Containers.{
  statuses, read_container, read_containers_from, read_containers, is_ok_status, is_not_requested,
  optional_filter,
}
use enhanced_ssh.ProbeParser.Report.{parse_docker_preflight}
use enhanced_ssh.ProbeParser.Disk.{FitSizes, read_preflight_disk-FitSizes}
use enhanced_ssh.ProbeParser.Verdict.{parse_docker_preflight-Read}
use enhanced_ssh.ProbeParser.Fields.{
  Fields, required_enum, required_text, required_boolean, required_safe_integer, no_pattern,
  decimal_value, is_decimal,
}
use enhanced_ssh.ProbeParser.Frame.{assert_dynamic_indexes}
use enhanced_ssh.ProbeParser.Facts.{is_defined, same}
use enhanced_ssh.ProbeParser.Ports.{
  protocols, observations, ownerships, is_listener, is_host_process, same_protocol, is_seen,
  port_key, read_port, read_ports_from, read_ports,
}

pub required_safe_integer-bounds :
    (fields : Fields) (key : String) (maximum minimum n : ℕ)
    → required_safe_integer fields key maximum minimum ≡ ok n
    → (minimum ≤ n) × (n ≤ maximum)
unfolding required_safe_integer
required_safe_integer-bounds fields key maximum minimum n e =
    let (value, read, s1) = bind-ok (required_text fields key 32 no_pattern) _ (sym e) in
    let (decimal, s2) = require-ok (is_decimal (codes value)) _ _ (sym s1) in
    let parsed = decimal_value 0 (codes value) in
    let (fits, s3) =
      require-ok (leb parsed max_safe_integer && leb minimum parsed && leb parsed maximum) _ _ s2 in
    subst (λ m. (minimum ≤ m) × (m ≤ maximum)) (ok-injective s3)
      (leb→le minimum parsed (ground arith), leb→le parsed maximum (ground arith))

-- A port in range, that belongs to a process of the host only if something listens on it.
abbrev pub fits_port : DockerPortProbeResult → Bool
fits_port e =
    leb 1 e.port
    && leb e.port 65535
    && (not (is_host_process e.ownership) || is_listener e.observation)

-- No protocol and port is listed twice.
abbrev pub is_apart : List DockerPortProbeResult → Bool
is_apart [] = true
is_apart (e ∷ es) = not (is_seen e.protocol e.port es) && is_apart es

is_seen-snoc :
    (protocol : PortProtocol) (port : ℕ) (es : List DockerPortProbeResult)
    (e : DockerPortProbeResult)
    → is_seen protocol port (es ++ e ∷ [])
      ≡ (is_seen protocol port es || (same_protocol e.protocol protocol && e.port == port))
is_seen-snoc protocol port [] e = ground arith
is_seen-snoc protocol port (x ∷ es) e = ground (arith, is_seen-snoc protocol port es e)

same_protocol_comm : (p q : PortProtocol) → same_protocol p q ≡ same_protocol q p
same_protocol_comm tcp tcp = refl
same_protocol_comm udp udp = refl
same_protocol_comm tcp udp = refl
same_protocol_comm udp tcp = refl

is_apart-snoc :
    (es : List DockerPortProbeResult) (e : DockerPortProbeResult)
    → is_apart es ≡ true
    → is_seen e.protocol e.port es ≡ false
    → is_apart (es ++ e ∷ []) ≡ true
is_apart-snoc [] e apart new = refl
is_apart-snoc (x ∷ es) e apart new = ground (
  arith,
  is_apart-snoc es e,
  is_seen-snoc x.protocol x.port es e,
  same_protocol_comm e.protocol x.protocol,
)

all-snoc :
    (p : DockerPortProbeResult → Bool) (es : List DockerPortProbeResult) (e : DockerPortProbeResult)
    → all p es ≡ true
    → p e ≡ true
    → all p (es ++ e ∷ []) ≡ true
all-snoc p [] e rest here = ground arith
all-snoc p (x ∷ es) e rest here = ground (arith, all-snoc p es e)

read_port-fits :
    (fields : Fields) (index : ℕ) (entries : List DockerPortProbeResult) (e : DockerPortProbeResult)
    → read_port fields index entries ≡ ok e
    → (fits_port e ≡ true) × (is_seen e.protocol e.port entries ≡ false)
unfolding read_port
read_port-fits fields index entries entry e =
    let (protocol, e1, s1) =
      bind-ok (required_enum fields (port_key index "protocol") protocols) _ (sym e) in
    let (port, e2, s2) =
      bind-ok (required_safe_integer fields (port_key index "port") 65535 1) _ s1 in
    let (observation, e3, s3) =
      bind-ok (required_enum fields (port_key index "observation") observations) _ s2 in
    let (ownership, e4, s4) =
      bind-ok (required_enum fields (port_key index "ownership") ownerships) _ s3 in
    let (host, s5) =
      require-ok (not (is_host_process ownership) || is_listener observation) _ _ (sym s4) in
    let (new, s6) = require-ok (not (is_seen protocol port entries)) _ _ s5 in
    let (least, most) =
      required_safe_integer-bounds fields (port_key index "port") 65535 1 port e2 in
    subst (λ x. (fits_port x ≡ true) × (is_seen x.protocol x.port entries ≡ false))
      (ok-injective s6) (ground (arith, le→leb 1 port least, le→leb port 65535 most), ground arith)

-- Ports in range, none twice.
pub record FitPorts (ports : List DockerPortProbeResult) : Type 0 where
  pub fit : all fits_port ports ≡ true
  pub apart : is_apart ports ≡ true

read_ports_from-FitPorts :
    (fields : Fields) (index rounds : ℕ) (entries ports : List DockerPortProbeResult)
    → FitPorts entries
    → read_ports_from fields index rounds entries ≡ ok ports
    → FitPorts ports × (length ports ≡ length entries + rounds)
unfolding read_ports_from
read_ports_from-FitPorts fields index zero entries ports h e =
    subst (λ p. FitPorts p × (length p ≡ length entries + 0)) (ok-injective e) (h, omega arith)
read_ports_from-FitPorts fields index (suc rounds) entries ports h e =
    let (entry, e1, s1) = bind-ok (read_port fields index entries) _ (sym e) in
    let (fits, new) = read_port-fits fields index entries entry e1 in
    let (fit, count) =
      read_ports_from-FitPorts fields (suc index) rounds (entries ++ entry ∷ []) ports
        (record {
          fit = all-snoc fits_port entries entry h.fit fits;
          apart = is_apart-snoc entries entry h.apart new;
        })
        (sym s1) in
    (fit, omega (arith, length-append entries (entry ∷ [])))

pub read_ports-FitPorts :
    (fields : Fields) (ports : List DockerPortProbeResult)
    → read_ports fields ≡ ok ports
    → FitPorts ports × (length ports ≤ 64)
unfolding read_ports
read_ports-FitPorts fields ports e =
    let (count, e1, s1) = bind-ok (required_safe_integer fields "ports.count" 64 0) _ (sym e) in
    let (within, s2) = then-ok (assert_dynamic_indexes fields "port." count "port") _ (sym s1) in
    let (fit, total) =
      read_ports_from-FitPorts fields 0 count [] ports (record { fit = refl; apart = refl }) s2 in
    let (least, most) = required_safe_integer-bounds fields "ports.count" 64 0 count e1 in
    (fit, omega arith)

read_containers_from-length :
    (fields : Fields) (index rounds : ℕ) (before items : List DockerContainerProbeResult)
    → read_containers_from fields index rounds before ≡ ok items
    → length items ≡ length before + rounds
unfolding read_containers_from
read_containers_from-length fields index zero before items e =
    subst (λ p. length p ≡ length before + 0) (ok-injective e) (omega arith)
read_containers_from-length fields index (suc rounds) before items e =
    let (item, e1, s1) = bind-ok (read_container fields index) _ (sym e) in
    let count =
      read_containers_from-length fields (suc index) rounds (before ++ item ∷ []) items (sym s1) in
    omega (arith, length-append before (item ∷ []))

-- At most 100 containers, listed only when the status is ok, with a filter when they were asked for.
pub record FitContainers (containers : ContainersResult) : Type 0 where
  pub most : length containers.items ≤ 100
  pub listed : is_ok_status containers.status ≡ false → length containers.items ≡ 0
  pub filtered : is_not_requested containers.status ≡ not (is_defined containers.filter)

pub read_containers-FitContainers :
    (fields : Fields) (containers : ContainersResult)
    → read_containers fields ≡ ok containers
    → FitContainers containers
unfolding read_containers
read_containers-FitContainers fields containers e =
    let (status, e1, s1) = bind-ok (required_enum fields "containers.status" statuses) _ (sym e) in
    let (count, e2, s2) = bind-ok (required_safe_integer fields "containers.count" 100 0) _ s1 in
    let (truncated, e3, s3) = bind-ok (required_boolean fields "containers.truncated") _ s2 in
    let (filter, e4, s4) = bind-ok (optional_filter fields) _ s3 in
    let (within, s5) =
      then-ok (assert_dynamic_indexes fields "container." count "container") _ (sym s4) in
    let (empty, s6) = require-ok (is_ok_status status || (count == 0 && not truncated)) _ _ s5 in
    let (agree, s7) =
      require-ok (same (is_not_requested status) (not (is_defined filter))) _ _ s6 in
    let (items, e8, s8) = bind-ok (read_containers_from fields 0 count []) _ (sym s7) in
    let (least, most) = required_safe_integer-bounds fields "containers.count" 100 0 count e2 in
    let size : length items ≡ count =
      omega (arith, read_containers_from-length fields 0 count [] items e8) in
    subst FitContainers (ok-injective (sym s8)) (record {
      most = omega arith;
      listed = λ down. size ∙ none_left (is_ok_status status) count truncated empty down;
      filtered = same-equal _ _ agree;
    })
  where
    none_left :
        (up : Bool) (count : ℕ) (truncated : Bool)
        → (up || (count == 0 && not truncated)) ≡ true
        → up ≡ false
        → count ≡ 0
    none_left up count truncated h down = ground (arith, ==_iff count 0)

    same-equal : (a b : Bool) → same a b ≡ true → a ≡ b
    same-equal a b h = ground arith

-- What bounds the lists of a preflight.
pub record Bounded (result : DockerPreflightProbeResult) : Type 0 where
  pub ports_most : length result.ports ≤ 64
  pub ports_fit : FitPorts result.ports
  pub containers_fit : FitContainers result.containers
  pub disk_fits :
      FitSizes result.disk.status result.disk.path result.disk.total_bytes
        result.disk.available_bytes

-- A preflight that is read lists at most 64 ports, each from 1 through 65535, no protocol and port
-- twice, and a process of the host only on a port that is listened on; at most 100 containers, and
-- none unless their status is ok; and sizes of the disk exactly when it is available, of which the
-- free part is at most the whole.
pub parse_docker_preflight-Bounded :
    (fields : Fields) (result : DockerPreflightProbeResult)
    → parse_docker_preflight fields ≡ ok result
    → Bounded result
parse_docker_preflight-Bounded fields result e =
    let r = (parse_docker_preflight-Read fields result e).0 in
    let (fit, most) = read_ports-FitPorts fields result.ports r.ports_read in
    record {
      ports_most = most;
      ports_fit = fit;
      containers_fit = read_containers-FitContainers fields result.containers r.containers_read;
      disk_fits = read_preflight_disk-FitSizes fields result.disk r.disk_read;
    }
