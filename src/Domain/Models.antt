-- ===== src/Domain/Models.antt =====
-- app/domain/models.py: a record for each table's row, and the two status enums.
-- A time is a number of microseconds since the start of year 1, UTC. Column lengths and foreign keys are not modelled.
use Prim.Native.Nat.{ℕ}
use mathlib.Core.List.{◌++◌}
use echo_security_scanner.Base.Float.{ℤ}
use echo_security_scanner.Base.{◌*◌, Bool, true, false, Option, Text, codes}
use echo_security_scanner.Domain.Severity.{Severity}

abbrev pub Time : Type 0
Time = ℕ

-- `timedelta(seconds=n)`
abbrev pub seconds : ℕ → Time
seconds n = n * 1000000

-- The last microsecond of the year 9999, where a `datetime` ends.
abbrev pub max_time : Time
max_time = 315537897599999999

pub data JobStatus : Type 0 where
  pending running done failed : JobStatus

pub data RunStatus : Type 0 where
  success failed skipped : RunStatus

pub record Image : Type 0 where
  pub id : ℕ
  pub name : Text
  pub tag : Text
  pub scan_interval_seconds : Option ℕ
  pub enabled : Bool
  pub current_scan_run_id : Option ℕ
  pub consecutive_failures : ℕ
  pub last_scan_at : Option Time
  pub last_scan_status : Option RunStatus
  pub created_at : Time

-- `Image.reference`: what Trivy is asked to scan.
abbrev pub reference : Image → Text
reference image = image.name ++ codes ":" ++ image.tag

pub record ScanJob : Type 0 where
  pub id : ℕ
  pub image_id : ℕ
  pub status : JobStatus
  pub priority : ℕ
  pub scheduled_for : Time
  pub lease_until : Option Time
  pub attempts : ℕ
  pub last_error : Option Text
  pub created_at : Time

pub record FindingCounts : Type 0 where
  pub critical_count : ℕ
  pub high_count : ℕ
  pub medium_count : ℕ
  pub low_count : ℕ
  pub unknown_count : ℕ

-- The five `finding_count_*` columns are all NULL or all set: `finding_counts`.
pub record ScanRun : Type 0 where
  pub id : ℕ
  pub image_id : ℕ
  pub scan_job_id : Option ℕ
  pub started_at : Time
  pub completed_at : Time
  pub status : RunStatus
  pub digest : Option Text
  pub trivy_version : Option Text
  pub trivy_db_version : Option Text
  pub scan_flags_hash : Option Text
  pub duration_ms : ℤ
  pub error : Option Text
  pub finding_counts : Option FindingCounts

pub record Package : Type 0 where
  pub id : ℕ
  pub name : Text
  pub version : Text
  pub type : Text

pub record Cve : Type 0 where
  pub id : Text
  pub title : Option Text
  pub description : Option Text
  pub max_severity : Severity
  pub max_severity_rank : ℕ
  pub affected_image_count : ℕ
  pub published_at : Option Time
  pub last_modified_at : Option Time

pub record Finding : Type 0 where
  pub id : ℕ
  pub image_id : ℕ
  pub cve_id : Text
  pub package_id : ℕ
  pub fixed_version : Option Text
  pub severity : Severity
  pub severity_rank : ℕ
  pub first_seen_run_id : ℕ
  pub last_seen_run_id : ℕ

abbrev pub is_pending : JobStatus → Bool
is_pending JobStatus.pending = true
is_pending _ = false

abbrev pub is_running : JobStatus → Bool
is_running JobStatus.running = true
is_running _ = false

abbrev pub is_failed : JobStatus → Bool
is_failed JobStatus.failed = true
is_failed _ = false

-- The predicate of the partial unique index `uq_scan_job_active`.
abbrev pub is_active : JobStatus → Bool
is_active JobStatus.pending = true
is_active JobStatus.running = true
is_active _ = false
