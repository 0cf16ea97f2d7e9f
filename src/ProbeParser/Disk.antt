-- ===== src/ProbeParser/Disk.antt =====
-- The sizes that a preflight gives of a disk.
use enhanced_ssh.Prelude.{
  ℕ, ◌≤◌, String, Option, none, some, ◌≡◌, refl, sym, subst, arith, leb, Bool-cases, inl, inr,
  leb→le,
}
use enhanced_ssh.Result.{ok, bind-ok, then-ok, ok-injective}
use enhanced_ssh.ProbeParser.Types.{
  DiskStatus, disk_available, disk_unavailable, disk_not_requested, DockerPreflightDiskResult,
}
use enhanced_ssh.ProbeParser.Report.{
  check_disk, disk_statuses, is_disk_available, read_preflight_disk,
}
use enhanced_ssh.ProbeParser.Fields.{
  Fields, required_enum, optional_text, optional_safe_integer, no_pattern,
}
use enhanced_ssh.ProbeParser.Facts.{is_defined}

-- The sizes of a disk that is available, of which the free part is no more than the whole.
pub data FitSizes : DiskStatus → Option String → Option ℕ → Option ℕ → Type 0 where
  sized :
      {path : String} {total available : ℕ}
      → available ≤ total
      → FitSizes disk_available (some path) (some total) (some available)
  unavailable : FitSizes disk_unavailable none none none
  not_asked : FitSizes disk_not_requested none none none

check_disk-FitSizes :
    (status : DiskStatus) (path : Option String) (total available : Option ℕ)
    → check_disk status path total available ≡ ok tt
    → FitSizes status path total available
unfolding check_disk
check_disk-FitSizes disk_available (some path) (some total) (some available) e =
    elim (Bool-cases (leb available total)) [
      | inl fits ↦ sized (leb→le available total fits)
      | inr over ↦ absurd (ground arith)
    ]
check_disk-FitSizes disk_available none total available e = absurd (ground arith)
check_disk-FitSizes disk_available (some path) none available e = absurd (ground arith)
check_disk-FitSizes disk_available (some path) (some total) none e = absurd (ground arith)
check_disk-FitSizes disk_unavailable none none none e = unavailable
check_disk-FitSizes disk_unavailable (some p) total available e = absurd (ground arith)
check_disk-FitSizes disk_unavailable none (some t) available e = absurd (ground arith)
check_disk-FitSizes disk_unavailable none none (some a) e = absurd (ground arith)
check_disk-FitSizes disk_not_requested none none none e = not_asked
check_disk-FitSizes disk_not_requested (some p) total available e = absurd (ground arith)
check_disk-FitSizes disk_not_requested none (some t) available e = absurd (ground arith)
check_disk-FitSizes disk_not_requested none none (some a) e = absurd (ground arith)

pub read_preflight_disk-FitSizes :
    (fields : Fields) (disk : DockerPreflightDiskResult)
    → read_preflight_disk fields ≡ ok disk
    → FitSizes disk.status disk.path disk.total_bytes disk.available_bytes
unfolding read_preflight_disk
read_preflight_disk-FitSizes fields disk e =
    let (status, e1, s1) = bind-ok (required_enum fields "disk.status" disk_statuses) _ (sym e) in
    let (path, e2, s2) = bind-ok (optional_text fields "disk.path" 4096 no_pattern) _ s1 in
    let (total, e3, s3) = bind-ok (optional_safe_integer fields "disk.totalBytes") _ s2 in
    let (available, e4, s4) = bind-ok (optional_safe_integer fields "disk.availableBytes") _ s3 in
    let (required, e5, s5) = bind-ok (optional_safe_integer fields "disk.requiredBytes") _ s4 in
    let (checked, s6) = then-ok (check_disk status path total available) _ (sym s5) in
    subst (λ d. FitSizes d.status d.path d.total_bytes d.available_bytes) (ok-injective s6)
      (check_disk-FitSizes status path total available checked)

pub FitSizes-defined :
    {status : DiskStatus} {path : Option String} {total available : Option ℕ}
    → FitSizes status path total available
    → is_defined available ≡ is_disk_available status
FitSizes-defined (sized h) = refl
FitSizes-defined unavailable = refl
FitSizes-defined not_asked = refl
