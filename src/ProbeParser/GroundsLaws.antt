-- ===== src/ProbeParser/GroundsLaws.antt =====
-- The grounds of a verdict of ready, against the tests of the code.
use enhanced_ssh.Prelude.{
  Each, ℕ, Bool, true, false, ◌||◌, List, [], ◌∷◌, Option, none, some, ◌≡◌, ◌≢◌, refl, arith, tests,
  any, ◌⊎◌, inl, inr,
}
use enhanced_ssh.ProbeParser.Types.{
  ContextScope, remote_scope, local_scope, unknown_scope, PortObservation, listener_observed,
  not_observed, unknown_state, PortOwnership, requested_project, other_container, host_process,
  unknown_owner, DockerPortProbeResult, ContainerHealth, healthy, unhealthy, starting, no_health,
  DockerContainerProbeResult, ContainersStatus, containers_ok, containers_unavailable,
  containers_not_requested, PreflightIntent, create, update, inspect, ComposeConfig, valid, invalid,
  config_unavailable, config_not_requested, DiskStatus, disk_available, disk_unavailable,
  disk_not_requested,
}
use enhanced_ssh.ProbeParser.Facts.{is_defined, is_remote}
use enhanced_ssh.ProbeParser.Ports.{is_unknown_state, is_listener}
use enhanced_ssh.ProbeParser.Containers.{is_unavailable}
use enhanced_ssh.ProbeParser.Report.{
  is_port_conflict, is_invalid, is_config_unavailable, is_unhealthy, is_starting, lacks_space,
  is_create, is_disk_unavailable,
}
use enhanced_ssh.ProbeParser.Grounds.{
  IsFree, unused, its_own, IsSettled, IsRoomy, none_asked, enough,
}

pub defined-some {ℓ} : {A : Type ℓ} (o : Option A) → is_defined o ≡ true → (a : A) × (o ≡ some a)
defined-some none h = absurd (ground arith)
defined-some (some a) h = (a, refl)

pub near-scope : (scope : Option ContextScope) → is_remote scope ≡ false → scope ≢ some remote_scope
near-scope none h e = cc
near-scope (some remote_scope) h e = ground arith
near-scope (some local_scope) h e = ground arith
near-scope (some unknown_scope) h e = ground arith

pub config-holds :
    (config : ComposeConfig)
    → (is_invalid config || is_config_unavailable config) ≡ false
    → (config ≡ valid) ⊎ (config ≡ config_not_requested)
config-holds valid h = inl refl
config-holds config_not_requested h = inr refl
config-holds invalid h = absurd (ground arith)
config-holds config_unavailable h = absurd (ground arith)

not_unknown : (o : PortObservation) → is_unknown_state o ≡ false → o ≢ unknown_state
not_unknown listener_observed h e = ground arith
not_unknown not_observed h e = ground arith
not_unknown unknown_state h e = ground arith

not_observed-cases :
    (o : PortObservation) → is_listener o ≡ false → is_unknown_state o ≡ false → o ≡ not_observed
not_observed-cases listener_observed h k = absurd (ground arith)
not_observed-cases not_observed h k = refl
not_observed-cases unknown_state h k = absurd (ground arith)

not_create :
    (intent : PreflightIntent) → is_create intent ≡ false → (intent ≡ update) ⊎ (intent ≡ inspect)
not_create create h = absurd (ground arith)
not_create update h = inl refl
not_create inspect h = inr refl

or-false : (a b : Bool) → (a || b) ≡ false → (a ≡ false) × (b ≡ false)
or-false true b h = absurd (ground arith)
or-false false b h = (refl, h)

health-settled :
    (health : ContainerHealth)
    → is_unhealthy health ≡ false
    → is_starting health ≡ false
    → (health ≡ healthy) ⊎ (health ≡ no_health)
health-settled healthy h k = inl refl
health-settled unhealthy h k = absurd (ground arith)
health-settled starting h k = absurd (ground arith)
health-settled no_health h k = inr refl

port-IsFree :
    (intent : PreflightIntent) (entry : DockerPortProbeResult) (owner : PortOwnership)
    → entry.ownership ≡ owner
    → is_port_conflict intent entry ≡ false
    → is_unknown_state entry.observation ≡ false
    → IsFree intent entry
unfolding is_port_conflict
port-IsFree intent entry requested_project e h k =
    its_own e (not_unknown entry.observation k) (not_create intent (ground arith))
port-IsFree intent entry other_container e h k = absurd (ground arith)
port-IsFree intent entry host_process e h k = absurd (ground arith)
port-IsFree intent entry unknown_owner e h k =
    unused (not_observed-cases entry.observation (ground arith) k) e

known_state : (o : PortObservation) → o ≢ unknown_state → is_unknown_state o ≡ false
known_state listener_observed h = refl
known_state not_observed h = refl
known_state unknown_state h = absurd (h refl)

IsFree-port :
    (intent : PreflightIntent) (entry : DockerPortProbeResult)
    → IsFree intent entry
    → (is_port_conflict intent entry ≡ false) × (is_unknown_state entry.observation ≡ false)
unfolding is_port_conflict
IsFree-port intent entry (unused seen owned) = (rw (seen, owned) refl, rw seen refl)
IsFree-port intent entry (its_own owned seen (inl e)) =
    (rw (owned, e) refl, known_state entry.observation seen)
IsFree-port intent entry (its_own owned seen (inr e)) =
    (rw (owned, e) refl, known_state entry.observation seen)

pub ports-IsFree :
    (intent : PreflightIntent) (ports : List DockerPortProbeResult)
    → any (is_port_conflict intent) ports ≡ false
    → any (λ e. is_unknown_state e.observation) ports ≡ false
    → Each (IsFree intent) ports
ports-IsFree intent [] h k = tt
ports-IsFree intent (entry ∷ ports) h k =
    let (h0, h1) = or-false _ _ h in
    let (k0, k1) = or-false _ _ k in
    (port-IsFree intent entry entry.ownership refl h0 k0, ports-IsFree intent ports h1 k1)

pub settled :
    (items : List DockerContainerProbeResult)
    → any (λ e. is_unhealthy e.health) items ≡ false
    → any (λ e. is_starting e.health) items ≡ false
    → Each IsSettled items
settled [] h k = tt
settled (entry ∷ items) h k =
    let (h0, h1) = or-false _ _ h in
    let (k0, k1) = or-false _ _ k in (health-settled entry.health h0 k0, settled items h1 k1)

pub status-listed :
    (status : ContainersStatus)
    → is_unavailable status ≡ false
    → (status ≡ containers_ok) ⊎ (status ≡ containers_not_requested)
status-listed containers_ok h = inl refl
status-listed containers_unavailable h = absurd (ground arith)
status-listed containers_not_requested h = inr refl

pub space-IsRoomy :
    (required available : Option ℕ)
    → lacks_space required available ≡ false
    → IsRoomy required available
unfolding lacks_space
space-IsRoomy none available h = none_asked refl
space-IsRoomy (some r) none h = absurd (ground arith)
space-IsRoomy (some r) (some a) h = enough r a refl refl (omega (tests, h))

pub disk-looked :
    (status : DiskStatus) → is_disk_unavailable status ≡ false → status ≢ disk_unavailable
disk-looked disk_available h e = ground arith
disk-looked disk_unavailable h e = ground arith
disk-looked disk_not_requested h e = ground arith

pub free-ports :
    (intent : PreflightIntent) (ports : List DockerPortProbeResult)
    → Each (IsFree intent) ports
    → (any (is_port_conflict intent) ports ≡ false)
      × (any (λ e. is_unknown_state e.observation) ports ≡ false)
free-ports intent [] h = (refl, refl)
free-ports intent (entry ∷ ports) h =
    let (calm, known) = IsFree-port intent entry h.0 in
    let (calms, knowns) = free-ports intent ports h.1 in (rw calm calms, rw known knowns)

pub settled-items :
    (items : List DockerContainerProbeResult)
    → Each IsSettled items
    → (any (λ e. is_unhealthy e.health) items ≡ false)
      × (any (λ e. is_starting e.health) items ≡ false)
settled-items [] h = (refl, refl)
settled-items (entry ∷ items) h =
    let (well, up) = settled-items items h.1 in
    elim h.0 [ inl e ↦ (rw e well, rw e up) | inr e ↦ (rw e well, rw e up) ]

pub roomy-space :
    (required available : Option ℕ)
    → IsRoomy required available
    → lacks_space required available ≡ false
unfolding lacks_space
roomy-space required available (none_asked e) = rw e refl
roomy-space required available (enough r a e f h) = rw (e, f) (ground arith)

pub looked-disk :
    (status : DiskStatus) → status ≢ disk_unavailable → is_disk_unavailable status ≡ false
looked-disk disk_available h = refl
looked-disk disk_unavailable h = absurd (h refl)
looked-disk disk_not_requested h = refl

pub scope-near : (scope : Option ContextScope) → scope ≢ some remote_scope → is_remote scope ≡ false
scope-near none h = refl
scope-near (some remote_scope) h = absurd (h refl)
scope-near (some local_scope) h = refl
scope-near (some unknown_scope) h = refl

pub config-fine :
    (config : ComposeConfig)
    → (config ≡ valid) ⊎ (config ≡ config_not_requested)
    → (is_invalid config ≡ false) × (is_config_unavailable config ≡ false)
config-fine config (inl e) = (rw e refl, rw e refl)
config-fine config (inr e) = (rw e refl, rw e refl)

pub listed-status :
    (status : ContainersStatus)
    → (status ≡ containers_ok) ⊎ (status ≡ containers_not_requested)
    → is_unavailable status ≡ false
listed-status status (inl e) = rw e refl
listed-status status (inr e) = rw e refl
