-- ===== src/Migrations/Initial.antt =====
-- `upgrade` and `downgrade` of app/db/migrations/versions/0001_initial_schema.py.
pub mod Tables
pub mod Indexes
use echo_security_scanner.Base.{Bool, true, false, none, some, List, [], ◌∷◌, Text, codes, ◌++◌}
use echo_security_scanner.Migrations.{Statement, create_table, create_index, drop_index, drop_table}
use echo_security_scanner.Migrations.Initial.Tables.{
  image_table, scan_run_table, scan_job_table, package_table, cve_table, finding_table,
}
use echo_security_scanner.Migrations.Initial.Indexes.{
  ix_scan_run_image_completed, ix_scan_run_completed, ix_scan_run_last_success,
  ix_scan_job_claimable, uq_scan_job_active, ix_scan_job_lease, ix_cve_max_severity_rank,
  ix_cve_live_by_severity, ix_finding_cve, ix_finding_image_severity, ix_finding_last_seen,
}

abbrev pub upgrade : List Statement
upgrade =
    create_table image_table
    ∷ create_table scan_run_table
    ∷ create_index ix_scan_run_image_completed
    ∷ create_index ix_scan_run_completed
    ∷ create_index ix_scan_run_last_success
    ∷ create_table scan_job_table
    ∷ create_index ix_scan_job_claimable
    ∷ create_index uq_scan_job_active
    ∷ create_index ix_scan_job_lease
    ∷ create_table package_table
    ∷ create_table cve_table
    ∷ create_index ix_cve_max_severity_rank
    ∷ create_index ix_cve_live_by_severity
    ∷ create_table finding_table
    ∷ create_index ix_finding_cve
    ∷ create_index ix_finding_image_severity
    ∷ create_index ix_finding_last_seen
    ∷ []

abbrev pub downgrade : List Statement
downgrade =
    drop_table (codes "finding")
    ∷ drop_index (codes "ix_cve_max_severity_rank")
    ∷ drop_table (codes "cve")
    ∷ drop_table (codes "package")
    ∷ drop_table (codes "scan_job")
    ∷ drop_table (codes "scan_run")
    ∷ drop_table (codes "image")
    ∷ []
