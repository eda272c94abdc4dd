-- ===== src/Migrations/Initial/Tables.antt =====
-- The tables of app/db/migrations/versions/0001_initial_schema.py.
use echo_security_scanner.Base.{true, false, none, some, List, [], ◌∷◌, Text, codes}
use echo_security_scanner.Migrations.{
  ColumnType, integer, big_integer, small_integer, boolean, free_text, timestamp, string, one_of,
  Column, Table, unique_constraint, check_constraint,
}

-- Columns of the migration by what it says of them.
abbrev key_column : Text → ColumnType → Column
key_column n t = record {
  name = n;
  type = t;
  nullable = false;
  primary_key = true;
  server_default = none;
  references = none;
}

abbrev required : Text → ColumnType → Column
required n t = record (key_column n t) { primary_key = false }

abbrev optional : Text → ColumnType → Column
optional n t = record (required n t) { nullable = true }

abbrev defaulted : Text → ColumnType → Text → Column
defaulted n t value = record (required n t) { server_default = some value }

abbrev foreign : Text → ColumnType → Text → Column
foreign n t table = record (required n t) { references = some table }

abbrev job_statuses : List Text
job_statuses = codes "pending" ∷ codes "running" ∷ codes "done" ∷ codes "failed" ∷ []

abbrev run_statuses : List Text
run_statuses = codes "success" ∷ codes "failed" ∷ codes "skipped" ∷ []

abbrev severities : List Text
severities = codes "UNKNOWN" ∷ codes "LOW" ∷ codes "MEDIUM" ∷ codes "HIGH" ∷ codes "CRITICAL" ∷ []

abbrev pub image_table : Table
image_table = record {
  name = codes "image";
  columns =
      key_column (codes "id") integer
      ∷ required (codes "name") (string 255)
      ∷ required (codes "tag") (string 128)
      ∷ optional (codes "scan_interval_seconds") integer
      ∷ defaulted (codes "enabled") boolean (codes "true")
      ∷ optional (codes "current_scan_run_id") big_integer
      ∷ defaulted (codes "consecutive_failures") integer (codes "0")
      ∷ optional (codes "last_scan_at") timestamp
      ∷ optional (codes "last_scan_status") (one_of run_statuses)
      ∷ defaulted (codes "created_at") timestamp (codes "now()")
      ∷ [];
  constraints =
      unique_constraint (codes "name" ∷ codes "tag" ∷ []) (codes "uq_image_name_tag")
      ∷ check_constraint (codes "scan_interval_seconds IS NULL OR scan_interval_seconds > 0")
          (codes "ck_image_interval_positive")
      ∷ [];
}

abbrev pub scan_run_table : Table
scan_run_table = record {
  name = codes "scan_run";
  columns =
      key_column (codes "id") big_integer
      ∷ foreign (codes "image_id") integer (codes "image")
      ∷ optional (codes "scan_job_id") big_integer
      ∷ defaulted (codes "started_at") timestamp (codes "now()")
      ∷ optional (codes "completed_at") timestamp
      ∷ required (codes "status") (one_of run_statuses)
      ∷ optional (codes "digest") (string 128)
      ∷ optional (codes "trivy_version") (string 64)
      ∷ optional (codes "trivy_db_version") (string 64)
      ∷ optional (codes "scan_flags_hash") (string 64)
      ∷ optional (codes "duration_ms") integer
      ∷ optional (codes "error") free_text
      ∷ optional (codes "finding_count_critical") integer
      ∷ optional (codes "finding_count_high") integer
      ∷ optional (codes "finding_count_medium") integer
      ∷ optional (codes "finding_count_low") integer
      ∷ optional (codes "finding_count_unknown") integer
      ∷ [];
  constraints = [];
}

abbrev pub scan_job_table : Table
scan_job_table = record {
  name = codes "scan_job";
  columns =
      key_column (codes "id") big_integer
      ∷ foreign (codes "image_id") integer (codes "image")
      ∷ defaulted (codes "status") (one_of job_statuses) (codes "'pending'")
      ∷ defaulted (codes "priority") small_integer (codes "0")
      ∷ defaulted (codes "scheduled_for") timestamp (codes "now()")
      ∷ optional (codes "lease_until") timestamp
      ∷ defaulted (codes "attempts") integer (codes "0")
      ∷ optional (codes "last_error") free_text
      ∷ defaulted (codes "created_at") timestamp (codes "now()")
      ∷ [];
  constraints = [];
}

abbrev pub package_table : Table
package_table = record {
  name = codes "package";
  columns =
      key_column (codes "id") big_integer
      ∷ required (codes "name") (string 255)
      ∷ required (codes "version") (string 255)
      ∷ defaulted (codes "type") (string 64) (codes "'unknown'")
      ∷ [];
  constraints =
      unique_constraint (codes "name" ∷ codes "version" ∷ codes "type" ∷ [])
        (codes "uq_package_nvt")
      ∷ [];
}

abbrev pub cve_table : Table
cve_table = record {
  name = codes "cve";
  columns =
      key_column (codes "id") (string 64)
      ∷ optional (codes "title") free_text
      ∷ optional (codes "description") free_text
      ∷ defaulted (codes "max_severity") (one_of severities) (codes "'UNKNOWN'")
      ∷ defaulted (codes "max_severity_rank") small_integer (codes "0")
      ∷ defaulted (codes "affected_image_count") integer (codes "0")
      ∷ optional (codes "published_at") timestamp
      ∷ optional (codes "last_modified_at") timestamp
      ∷ [];
  constraints = [];
}

abbrev pub finding_table : Table
finding_table = record {
  name = codes "finding";
  columns =
      key_column (codes "id") big_integer
      ∷ foreign (codes "image_id") integer (codes "image")
      ∷ foreign (codes "cve_id") (string 64) (codes "cve")
      ∷ foreign (codes "package_id") big_integer (codes "package")
      ∷ optional (codes "fixed_version") (string 255)
      ∷ required (codes "severity") (one_of severities)
      ∷ required (codes "severity_rank") small_integer
      ∷ required (codes "first_seen_run_id") big_integer
      ∷ required (codes "last_seen_run_id") big_integer
      ∷ [];
  constraints =
      unique_constraint (codes "image_id" ∷ codes "cve_id" ∷ codes "package_id" ∷ [])
        (codes "uq_finding_img_cve_pkg")
      ∷ [];
}
