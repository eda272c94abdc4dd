-- ===== src/Api/Schemas.antt =====
-- app/api/schemas.py: the bodies of the answers. `F` is Python's `float`.
use echo_security_scanner.Base.{ℕ, ◌+◌, Option, List, Text}
use echo_security_scanner.Base.Float.{ℤ}
use echo_security_scanner.Domain.Severity.{Severity}
use echo_security_scanner.Domain.Models.{Time, RunStatus}

pub record Pagination : Type 0 where
  pub total : ℕ
  pub limit : ℕ
  pub offset : ℕ

pub record Page (A : Type 0) : Type 0 where
  pub items : List A
  pub pagination : Pagination

-- What a collection endpoint answers: 304, 404, or a page.
pub data Answer (A : Type 0) : Type 0 where
  not_modified : Answer A
  missing : Answer A
  shown : Page A → Answer A

pub record SeverityCounts : Type 0 where
  pub critical : ℕ
  pub high : ℕ
  pub medium : ℕ
  pub low : ℕ
  pub unknown : ℕ

abbrev pub no_counts : SeverityCounts
no_counts = record { critical = 0; high = 0; medium = 0; low = 0; unknown = 0 }

abbrev pub counts_total : SeverityCounts → ℕ
counts_total c = c.critical + c.high + c.medium + c.low + c.unknown

pub record ImageSummary : Type 0 where
  pub name : Text
  pub tag : Text
  pub digest : Option Text
  pub last_scan_at : Option Time
  pub last_scan_status : Option RunStatus
  pub consecutive_failures : ℕ
  pub scan_interval_seconds : ℕ
  pub total_cves : ℕ
  pub severity_counts : SeverityCounts

pub record PackageRef : Type 0 where
  pub name : Text
  pub version : Text
  pub type : Text

pub record CveInImage : Type 0 where
  pub cve_id : Text
  pub title : Option Text
  pub severity : Severity
  pub package_ref : PackageRef
  pub fixed_version : Option Text
  pub first_seen_at : Option Time
  pub last_seen_at : Option Time

pub record ImageAffectedByCve : Type 0 where
  pub name : Text
  pub tag : Text
  pub digest : Option Text
  pub severity : Severity
  pub package_ref : PackageRef
  pub fixed_version : Option Text
  pub last_seen_at : Option Time

pub record CveSummary : Type 0 where
  pub cve_id : Text
  pub title : Option Text
  pub max_severity : Severity
  pub published_at : Option Time
  pub last_modified_at : Option Time
  pub affected_image_count : ℕ

pub record Health : Type 0 where
  pub status : Text
  pub database : Text
  pub images_enabled : Option ℕ
  pub jobs_pending : Option ℕ
  pub last_successful_scan_at : Option Time

pub record QueueStats (F : Type 0) : Type 0 where
  pub pending : ℕ
  pub running : ℕ
  pub failed : ℕ
  pub oldest_pending_age_seconds : Option F

pub record ImageStats : Type 0 where
  pub total : ℕ
  pub enabled : ℕ
  pub never_scanned : ℕ
  pub failing : ℕ

pub record RunOutcomes (F : Type 0) : Type 0 where
  pub success : ℕ
  pub failed : ℕ
  pub skipped : ℕ
  pub skip_ratio : F

pub record DurationStats : Type 0 where
  pub count : ℕ
  pub p50 : Option ℤ
  pub p95 : Option ℤ
  pub max : Option ℤ

pub record FailureReason : Type 0 where
  pub reason : Text
  pub count : ℕ

pub record Stats (F : Type 0) : Type 0 where
  pub generated_at : Time
  pub window_hours : ℕ
  pub queue : QueueStats F
  pub images : ImageStats
  pub runs : RunOutcomes F
  pub scan_duration_ms : DurationStats
  pub recent_failures : List FailureReason
  pub findings : SeverityCounts
