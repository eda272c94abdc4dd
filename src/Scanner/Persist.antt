-- ===== src/Scanner/Persist.antt =====
-- app/scanner/persist.py: what a scan, a skip and a failed attempt write.
pub mod Outcome
pub mod Consistency
pub mod Carried
pub mod Between
pub mod Unscanned
use echo_security_scanner.Base.{
  ℕ, ◌+◌, Bool, ◌&&◌, Option, none, some, List, [], ◌∷◌, ◌++◌, map, Text, ◌==◌, if◌then◌else◌,
  filter, take,
}
use echo_security_scanner.Base.Float.{ℤ, duration_between}
use echo_security_scanner.Errors.{ok, Exec, ◌>>=◌, ◌>>◌, pure}
use echo_security_scanner.Domain.Models.{Time, RunStatus, Image, ScanRun, Finding, FindingCounts}
use echo_security_scanner.Domain.Database.{Db, option_eq, flush_image}
use echo_security_scanner.Scanner.Parser.{ParsedReport}
use echo_security_scanner.Scanner.Upsert.{upsert_packages, upsert_cves}
use echo_security_scanner.Scanner.Sightings.{upsert_findings}
use echo_security_scanner.Scanner.Rollup.{recompute_cve_rollup}

pub record RunMetadata : Type 0 where
  pub digest : Option Text
  pub trivy_version : Option Text
  pub trivy_db_version : Option Text
  pub scan_flags_hash : Option Text
  pub started_at : Time
  pub completed_at : Time

unfoldable pub duration_ms : RunMetadata → ℤ
duration_ms m = duration_between m.started_at m.completed_at

-- `_new_run` and its flush, which takes the id from the sequence.
unfoldable pub add_run : Image → Option ℕ → RunStatus → RunMetadata → Option Text → Exec Db ScanRun
unfolding duration_ms
add_run image job_id status meta error db = (
  ok run,
  record db { runs = db.runs ++ run ∷ []; seq = record db.seq { next_run = db.seq.next_run + 1 } },
)
  where
    run : ScanRun
    run = record {
      id = db.seq.next_run;
      image_id = image.id;
      scan_job_id = job_id;
      started_at = meta.started_at;
      completed_at = meta.completed_at;
      status = status;
      digest = meta.digest;
      trivy_version = meta.trivy_version;
      trivy_db_version = meta.trivy_db_version;
      scan_flags_hash = meta.scan_flags_hash;
      duration_ms = duration_ms meta;
      error = error;
      finding_counts = none;
    }

-- The ids of the CVEs that the image's current run found.
unfoldable pub current_cve_ids : Image → List Finding → List Text
current_cve_ids image findings = elim image.current_scan_run_id [
  | none ↦ []
  | some run ↦
      map (λ f. f.cve_id)
        (filter (λ f. f.image_id == image.id && f.last_seen_run_id == run) findings)
]

-- The `setattr` loop over the run's `finding_count_*`, and their flush.
unfoldable pub set_counts : ℕ → FindingCounts → Db → Db
set_counts run_id counts db = record db {
  runs = map (λ r. if r.id == run_id then record r { finding_counts = some counts } else r) db.runs;
}

abbrev pub effect {ℓ} : {S A : Type ℓ} → (S → A × S) → Exec S A
effect f s = let (a, s') = f s in (ok a, s')

abbrev pub change : (Db → Db) → Exec Db (Unit {0})
change f db = (ok tt, f db)

abbrev pub scanned : Image → ℕ → RunMetadata → Image
scanned image run_id meta = record image {
  current_scan_run_id = some run_id;
  last_scan_at = some meta.completed_at;
  last_scan_status = some RunStatus.success;
  consecutive_failures = 0;
}

-- `image` is the object as it was loaded, `job_id` the job's id, if there is a job.
unfoldable pub record_success : Image → Option ℕ → ParsedReport → RunMetadata → Exec Db ScanRun
unfolding add_run current_cve_ids set_counts
record_success image job_id report meta db =
    let affected = current_cve_ids image db.findings ++ map (λ f. f.cve_id) report.findings in
    (do
      run ← add_run image job_id RunStatus.success meta none
      package_ids ← effect (upsert_packages report)
      change (upsert_cves report)
      counts ← upsert_findings image.id run.id package_ids report.findings
      change (set_counts run.id counts)
      flush_image image (scanned image run.id meta)
      change (recompute_cve_rollup affected)
      pure (record run { finding_counts = some counts }))
      db

abbrev pub skipped : Image → RunMetadata → Image
skipped image meta = record image {
  last_scan_at = some meta.completed_at;
  last_scan_status = some RunStatus.skipped;
  consecutive_failures = 0;
}

unfoldable pub record_skip : Image → Option ℕ → RunMetadata → Exec Db ScanRun
unfolding add_run
record_skip image job_id meta = do
  run ← add_run image job_id RunStatus.skipped meta none
  flush_image image (skipped image meta)
  pure run

abbrev pub failed_once : Bool → Image → RunMetadata → Image
failed_once exhausted image meta = record image {
  last_scan_at = some meta.completed_at;
  last_scan_status = some RunStatus.failed;
  consecutive_failures =
      if exhausted then image.consecutive_failures + 1 else image.consecutive_failures;
}

unfoldable pub record_failure : Image → Option ℕ → RunMetadata → Text → Bool → Exec Db ScanRun
unfolding add_run
record_failure image job_id meta error exhausted = do
  run ← add_run image job_id RunStatus.failed meta (some (take 4000 error))
  flush_image image (failed_once exhausted image meta)
  pure run
