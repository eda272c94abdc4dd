-- ===== src/Migrations/Initial/Indexes.antt =====
-- The indexes of app/db/migrations/versions/0001_initial_schema.py.
use echo_security_scanner.Base.{true, false, none, some, [], ◌∷◌, codes}
use echo_security_scanner.Migrations.{Index}

abbrev pub ix_scan_run_image_completed : Index
ix_scan_run_image_completed = record {
  name = codes "ix_scan_run_image_completed";
  table = codes "scan_run";
  unique = false;
  keys = (codes "image_id", false) ∷ (codes "completed_at", true) ∷ [];
  condition = none;
}

abbrev pub ix_scan_run_completed : Index
ix_scan_run_completed = record {
  name = codes "ix_scan_run_completed";
  table = codes "scan_run";
  unique = false;
  keys = (codes "completed_at", true) ∷ [];
  condition = none;
}

abbrev pub ix_scan_run_last_success : Index
ix_scan_run_last_success = record {
  name = codes "ix_scan_run_last_success";
  table = codes "scan_run";
  unique = false;
  keys = (codes "completed_at", true) ∷ [];
  condition = some (codes "status = 'success'");
}

abbrev pub ix_scan_job_claimable : Index
ix_scan_job_claimable = record {
  name = codes "ix_scan_job_claimable";
  table = codes "scan_job";
  unique = false;
  keys = (codes "priority", true) ∷ (codes "scheduled_for", false) ∷ [];
  condition = some (codes "status = 'pending'");
}

abbrev pub uq_scan_job_active : Index
uq_scan_job_active = record {
  name = codes "uq_scan_job_active";
  table = codes "scan_job";
  unique = true;
  keys = (codes "image_id", false) ∷ [];
  condition = some (codes "status IN ('pending', 'running')");
}

abbrev pub ix_scan_job_lease : Index
ix_scan_job_lease = record {
  name = codes "ix_scan_job_lease";
  table = codes "scan_job";
  unique = false;
  keys = (codes "lease_until", false) ∷ [];
  condition = some (codes "status = 'running'");
}

abbrev pub ix_cve_max_severity_rank : Index
ix_cve_max_severity_rank = record {
  name = codes "ix_cve_max_severity_rank";
  table = codes "cve";
  unique = false;
  keys = (codes "max_severity_rank", false) ∷ [];
  condition = none;
}

abbrev pub ix_cve_live_by_severity : Index
ix_cve_live_by_severity = record {
  name = codes "ix_cve_live_by_severity";
  table = codes "cve";
  unique = false;
  keys = (codes "max_severity_rank", true) ∷ (codes "id", false) ∷ [];
  condition = some (codes "affected_image_count > 0");
}

abbrev pub ix_finding_cve : Index
ix_finding_cve = record {
  name = codes "ix_finding_cve";
  table = codes "finding";
  unique = false;
  keys = (codes "cve_id", false) ∷ [];
  condition = none;
}

abbrev pub ix_finding_image_severity : Index
ix_finding_image_severity = record {
  name = codes "ix_finding_image_severity";
  table = codes "finding";
  unique = false;
  keys = (codes "image_id", false) ∷ (codes "severity_rank", false) ∷ [];
  condition = none;
}

abbrev pub ix_finding_last_seen : Index
ix_finding_last_seen = record {
  name = codes "ix_finding_last_seen";
  table = codes "finding";
  unique = false;
  keys = (codes "last_seen_run_id", false) ∷ [];
  condition = none;
}
