-- ===== src/Scanner/Persist/Outcome.antt =====
-- The database after `record_success` (app/scanner/persist.py), in one expression.
use echo_security_scanner.Base.{
  ℕ, ◌+◌, ◌≡◌, false, Option, none, some, List, [], ◌++◌, map, Text, arith,
}
use echo_security_scanner.Errors.{ok}
use echo_security_scanner.Domain.Models.{RunStatus, Image, ScanRun, Finding}
use echo_security_scanner.Domain.Database.{Db, flush_image, merge_image, get_image, put_image}
use echo_security_scanner.Scanner.Parser.{ParsedReport}
use echo_security_scanner.Scanner.Upsert.{
  upsert_packages, upsert_cves, collect_all, upsert_all_cves,
}
use echo_security_scanner.Scanner.Sightings.{
  proposed_rows, has_duplicates, upsert_rows, upsert_findings, count_rows,
}
use echo_security_scanner.Scanner.Rollup.{recompute_cve_rollup}
use echo_security_scanner.Scanner.Persist.{
  RunMetadata, duration_ms, add_run, current_cve_ids, set_counts, scanned, record_success,
}

-- The CVEs whose columns a success recomputes.
abbrev pub affected : Image → ParsedReport → Db → List Text
affected image report db = current_cve_ids image db.findings ++ map (λ f. f.cve_id) report.findings

-- The findings that a success proposes.
abbrev pub sightings : Image → ParsedReport → Db → List Finding
sightings image report db =
    proposed_rows image.id db.seq.next_run (upsert_packages report db).0 report.findings
      db.seq.next_finding

merge_image_self :
    (image : Image) (run : ℕ) (meta : RunMetadata)
    → merge_image image (scanned image run meta) image ≡ scanned image run meta
unfolding merge_image
merge_image_self image run meta = ground arith

-- The tables as the last step finds them.
pub record IsWritten (image : Image) (report : ParsedReport) (meta : RunMetadata) (db mid : Db)
    : Type 0 where
  pub images : mid.images ≡ put_image (scanned image db.seq.next_run meta) db.images
  pub cves : mid.cves ≡ upsert_all_cves (collect_all report.findings []) db.cves
  pub findings : mid.findings ≡ upsert_rows (sightings image report db) db.findings
  pub packages : mid.packages ≡ (upsert_packages report db).1.packages
  pub next_package : mid.seq.next_package ≡ (upsert_packages report db).1.seq.next_package
  pub next_run : mid.seq.next_run ≡ db.seq.next_run + 1
  pub jobs : mid.jobs ≡ db.jobs
  pub next_job : mid.seq.next_job ≡ db.seq.next_job

-- The database when the findings stand and the image does not.
after_findings : Image → Option ℕ → ParsedReport → RunMetadata → Db → Db
after_findings image job_id report meta db =
    let db1 = (add_run image job_id RunStatus.success meta none db).1 in
    let db2 = upsert_cves report (upsert_packages report db1).1 in
    set_counts db.seq.next_run (count_rows (sightings image report db))
      (upsert_findings image.id db.seq.next_run (upsert_packages report db).0 report.findings db2).1

before_rollup : Image → Option ℕ → ParsedReport → RunMetadata → Db → Db
unfolding after_findings
before_rollup image job_id report meta db =
    let db' = after_findings image job_id report meta db in
    record db' { images = put_image (scanned image db.seq.next_run meta) db'.images }

module _ (image : Image) (job_id : Option ℕ) (report : ParsedReport) (meta : RunMetadata)
    (db : Db) where
  written :
      has_duplicates (sightings image report db) ≡ false
      → IsWritten image report meta db (before_rollup image job_id report meta db)
  unfolding before_rollup add_run upsert_packages upsert_cves upsert_findings set_counts
  written e = record {
    images = rw e;
    cves = rw e;
    findings = rw e;
    packages = rw e;
    next_package = rw e;
    next_run = rw e;
    jobs = rw e;
    next_job = rw e;
  }

  -- The run that a success returns.
  unfoldable pub success_run : ScanRun
  success_run = record {
    id = db.seq.next_run;
    image_id = image.id;
    scan_job_id = job_id;
    started_at = meta.started_at;
    completed_at = meta.completed_at;
    status = RunStatus.success;
    digest = meta.digest;
    trivy_version = meta.trivy_version;
    trivy_db_version = meta.trivy_db_version;
    scan_flags_hash = meta.scan_flags_hash;
    duration_ms = duration_ms meta;
    error = none;
    finding_counts = some (count_rows (sightings image report db));
  }

  success_lem :
      get_image image.id db.images ≡ some image
      → has_duplicates (sightings image report db) ≡ false
      → record_success image job_id report meta db ≡ (
        ok success_run,
        recompute_cve_rollup (affected image report db) (before_rollup image job_id report meta db),
      )
  unfolding record_success before_rollup flush_image upsert_findings upsert_packages upsert_cves
      success_run
  success_lem found e = rw (e, found, merge_image_self image db.seq.next_run meta)

  -- With no row proposed twice a success is recorded.
  pub record_success-IsWritten :
      get_image image.id db.images ≡ some image
      → has_duplicates (sightings image report db) ≡ false
      → (mid : Db) × IsWritten image report meta db mid
        × (record_success image job_id report meta db
            ≡ (ok success_run, recompute_cve_rollup (affected image report db) mid))
  record_success-IsWritten found e =
      (before_rollup image job_id report meta db, written e, success_lem found e)
