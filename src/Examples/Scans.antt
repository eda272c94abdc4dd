-- ===== src/Examples/Scans.antt =====
-- The theorems on reports and their recording at a small report and a small database
-- (app/scanner/parser.py, app/scanner/persist.py).
use echo_security_scanner.Base.{
  ℕ, ◌≡◌, refl, true, false, Option, none, some, [], ◌∷◌, codes, arith, here, text_eq, All,
}
use echo_security_scanner.Errors.{ok}
use echo_security_scanner.Domain.Severity.{critical}
use echo_security_scanner.Domain.Models.{Image, Cve, Finding, Package, RunStatus}
use echo_security_scanner.Domain.Database.{Db}
use echo_security_scanner.Scanner.Parser.SmallReport.{zlib_report}
use echo_security_scanner.Scanner.Upsert.{PackageKey, upsert_packages}
use echo_security_scanner.Scanner.Upsert.Packages.{upsert_packages-IsInjective}
use echo_security_scanner.Scanner.Sightings.{proposed_rows, has_duplicates}
use echo_security_scanner.Scanner.Sightings.Distinct.{proposed_rows_distinct}
use echo_security_scanner.Scanner.Rollup.{
  is_current, current_findings, max_rank, count_images, severity_at,
}
use echo_security_scanner.Scanner.Rollup.Meaning.{IsRolledUp}
use echo_security_scanner.Scanner.Persist.{RunMetadata, record_success}
use echo_security_scanner.Scanner.Persist.Outcome.{success_run}
use echo_security_scanner.Scanner.Persist.Carried.{IsTold, record_success-IsTold}
use echo_security_scanner.Scanner.Persist.Consistency.{IsConsistent, record_success-IsConsistent}

abbrev pub nginx : Image
nginx = record {
  id = 1;
  name = codes "nginx";
  tag = codes "latest";
  scan_interval_seconds = none;
  enabled = true;
  current_scan_run_id = some 1;
  consecutive_failures = 0;
  last_scan_at = some 5;
  last_scan_status = some RunStatus.success;
  created_at = 1;
}

abbrev glibc : Package
glibc = record { id = 1; name = codes "glibc"; version = codes "2"; type = codes "debian" }

abbrev glibc_found : Finding
glibc_found = record {
  id = 1;
  image_id = 1;
  cve_id = codes "CVE-0";
  package_id = 1;
  fixed_version = none;
  severity = critical;
  severity_rank = 4;
  first_seen_run_id = 1;
  last_seen_run_id = 1;
}

abbrev pub cve_0 : Cve
cve_0 = record {
  id = codes "CVE-0";
  title = none;
  description = none;
  max_severity = critical;
  max_severity_rank = 4;
  affected_image_count = 1;
  published_at = none;
  last_modified_at = none;
}

abbrev pub one_scan : Db
one_scan = record {
  images = nginx ∷ [];
  jobs = [];
  runs = [];
  packages = glibc ∷ [];
  cves = cve_0 ∷ [];
  findings = glibc_found ∷ [];
  seq = record { next_job = 1; next_run = 2; next_package = 2; next_finding = 2 };
}

cve_0-IsRolledUp : IsRolledUp one_scan.images one_scan.findings cve_0
unfolding is_current current_findings max_rank count_images severity_at text_eq
cve_0-IsRolledUp = record { rank = refl; count = refl; severity = refl }

pub one_scan-IsConsistent : IsConsistent one_scan
one_scan-IsConsistent = record {
  images_unique = (tt, tt);
  packages = record { unique = (tt, tt); fresh = (omega arith, tt) };
  runs_passed = (omega arith, tt);
  rolled_up = (cve_0-IsRolledUp, tt);
}

abbrev pub scan_meta : RunMetadata
scan_meta = record {
  digest = some (codes "sha256:a");
  trivy_version = some (codes "0.50");
  trivy_db_version = some (codes "2");
  scan_flags_hash = some (codes "f");
  started_at = 10;
  completed_at = 2000010;
}

record_success-IsConsistent_example :
    (out : Db) × (record_success nginx none zlib_report scan_meta one_scan
      ≡ (ok (success_run nginx none zlib_report scan_meta one_scan), out))
    × IsConsistent out
record_success-IsConsistent_example =
    record_success-IsConsistent nginx none zlib_report scan_meta one_scan one_scan-IsConsistent here
      (refl, tt)

record_success-IsTold_example :
    (out : Db) × (record_success nginx none zlib_report scan_meta one_scan
      ≡ (ok (success_run nginx none zlib_report scan_meta one_scan), out))
    × All (IsTold out) out.cves
record_success-IsTold_example =
    record_success-IsTold nginx none zlib_report scan_meta one_scan one_scan-IsConsistent here
      (refl, tt)

abbrev inserted : (PackageKey → Option ℕ)
inserted = (upsert_packages zlib_report one_scan).0

proposed_rows_distinct_example :
    has_duplicates (proposed_rows 1 2 inserted zlib_report.findings 2) ≡ false
proposed_rows_distinct_example =
    proposed_rows_distinct 1 2 inserted zlib_report.findings 2
      (upsert_packages-IsInjective zlib_report one_scan
        (record { unique = (tt, tt); fresh = (omega arith, tt) }))
      (refl, tt)
