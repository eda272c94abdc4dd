-- ===== src/Scanner/Worker/Atomic.antt =====
-- A job's outcome and its findings are committed together (`_execute` and `run_once` of
-- app/scanner/worker.py).
use echo_security_scanner.Base.{
  ◌≡◌, refl, ap, ◌∙◌, ◌⊎◌, inl, inr, true, Option, some, List, Text, ◌==◌, ==_iff, In, Option-cases,
  Bool-cases, find?-In,
}
use echo_security_scanner.Errors.{Exception, Result, ok, raise, Result-cases}
use echo_security_scanner.Domain.Models.{ScanJob, ScanRun, Image, reference, is_active}
use echo_security_scanner.Domain.Database.{Db, Session, get_image, put_job, commit}
use echo_security_scanner.Registry.Reference.{parse_reference}
use echo_security_scanner.Jobs.Queue.{complete}
use echo_security_scanner.Jobs.Queue.Exclusion.{IsQueueSound}
use echo_security_scanner.Jobs.Queue.Rows.{SameKey, flush_job_lem}
use echo_security_scanner.Scanner.Parser.{ParsedReport}
use echo_security_scanner.Scanner.Parser.Dedup.{IsDistinct}
use echo_security_scanner.Scanner.Persist.{record_success, record_skip}
use echo_security_scanner.Scanner.Persist.Outcome.{success_run}
use echo_security_scanner.Scanner.Persist.Unscanned.{record_skip_keeps}
use echo_security_scanner.Scanner.Persist.Consistency.{IsConsistent, record_success-IsConsistent}
use echo_security_scanner.Scanner.Persist.Between.{
  record_success_jobs, record_skip-IsConsistent, skip_sequences,
}
use echo_security_scanner.Scanner.Worker.{
  Surroundings, last_successful_run, is_unchanged, meta, or_else_text, finish, scan_or_skip,
  execute_job, execute_image,
}

-- The job ended: nothing was raised, all is committed, the job's row alone changed in the queue and is
-- completed, and the database is consistent.
pub record IsDone (job : ScanJob) (db : Db) (out : Result (Unit {0}) × Session) : Type 0 where
  pub returned : out.0 ≡ ok tt
  pub all_committed : out.1.committed ≡ out.1.current
  pub jobs : out.1.committed.jobs ≡ put_job (complete job) db.jobs
  pub consistent : IsConsistent out.1.committed

complete-SameKey : (j : ScanJob) → SameKey j (complete j)
unfolding complete
complete-SameKey j = record { id = refl; image_id = refl; priority = refl; created_at = refl }

finish_lem :
    (job : ScanJob) (s : Session)
    → IsQueueSound s.current
    → In job s.current.jobs
    → is_active job.status ≡ true
    → let after = record s.current { jobs = put_job (complete job) s.current.jobs } in
      finish job s ≡ (ok tt, record { committed = after; current = after })
unfolding finish commit
finish_lem job s sound row active =
    rw (flush_job_lem job (complete job) s.current sound row (complete-SameKey job) active) refl

queue_kept :
    (db mid : Db)
    → mid.jobs ≡ db.jobs
    → mid.seq.next_job ≡ db.seq.next_job
    → IsQueueSound db
    → IsQueueSound mid
queue_kept db mid j n h = rw (j, n) h

pub jobs_only :
    (mid : Db) (jobs : List ScanJob) → IsConsistent mid → IsConsistent (record mid { jobs = jobs })
jobs_only mid jobs c = record {
  images_unique = c.images_unique;
  packages = c.packages;
  runs_passed = c.runs_passed;
  rolled_up = c.rolled_up;
}

module _ (w : Surroundings) (job : ScanJob) (db : Db) (sound : IsQueueSound db)
    (row : In job db.jobs) (active : is_active job.status ≡ true) (consistent : IsConsistent db)
    (distinct : (raw : Text) (report : ParsedReport)
      → w.parse_report raw ≡ ok report
      → IsDistinct report.findings) where
  abbrev opened : Session
  opened = record { committed = db; current = db }

  -- What was recorded is committed with the job's completion.
  finished :
      (mid : Db)
      → mid.jobs ≡ db.jobs
      → mid.seq.next_job ≡ db.seq.next_job
      → IsConsistent mid
      → IsDone job db (finish job (record { committed = db; current = mid }))
  finished mid j n c =
      rw
        (finish_lem job (record { committed = db; current = mid }) (queue_kept db mid j n sound)
          (rw j row) active)
        (record {
          returned = refl;
          all_committed = refl;
          jobs = ap (put_job (complete job)) j;
          consistent = jobs_only mid (put_job (complete job) mid.jobs) c;
        })

  -- Done, or an exception that leaves the session as it was.
  abbrev IsDoneOrRaised : Result (Unit {0}) × Session → Type 0
  IsDoneOrRaised out = IsDone job db out ⊎ ((e : Exception) × (out ≡ (raise e, opened)))

  skipped_done :
      (image : Image) (previous : Option ScanRun) (trivy_version db_version digest : Text)
      → In image db.images
      → get_image image.id db.images ≡ some image
      → is_unchanged previous digest trivy_version db_version w.scan_flags_hash ≡ true
      → IsDone job db (scan_or_skip w job image previous trivy_version db_version digest opened)
  unfolding scan_or_skip
  skipped_done image previous trivy_version db_version digest m found e =
      let at = meta w trivy_version db_version (some digest) in
      let (added, _) = record_skip_keeps image (some job.id) at db consistent.images_unique m in
      let (_, _, n, _) = skip_sequences image (some job.id) at db found consistent.images_unique in
      rw (e, scan_or_skip, added.returned)
        (finished (record_skip image (some job.id) at db).1 added.jobs n
          (record_skip-IsConsistent image (some job.id) at db consistent m))

  scanned_done :
      (image : Image) (report : ParsedReport) (digest trivy_version db_version raw : Text)
      → In image db.images
      → w.parse_report raw ≡ ok report
      → let at = meta w trivy_version db_version (some (or_else_text report.digest digest)) in
        (record_success image (some job.id) report at db).0
          ≡ ok (success_run image (some job.id) report at db)
        × IsDone job db (
            finish job (record {
              committed = db;
              current = (record_success image (some job.id) report at db).1;
            }))
  scanned_done image report digest trivy_version db_version raw m parsed =
      let at = meta w trivy_version db_version (some (or_else_text report.digest digest)) in
      let (out, e, c) =
        record_success-IsConsistent image (some job.id) report at db consistent m
          (distinct raw report parsed) in
      let (j, n) =
        record_success_jobs image (some job.id) report at db consistent m
          (distinct raw report parsed) in
      (ap (λ r. r.0) e, finished (record_success image (some job.id) report at db).1 j n (rw e c))

  scan_or_skip-cases :
      (image : Image) (previous : Option ScanRun) (trivy_version db_version digest : Text)
      → In image db.images
      → get_image image.id db.images ≡ some image
      → IsDoneOrRaised (scan_or_skip w job image previous trivy_version db_version digest opened)
  unfolding scan_or_skip
  scan_or_skip-cases image previous trivy_version db_version digest m found =
      elim (Bool-cases (is_unchanged previous digest trivy_version db_version w.scan_flags_hash)) [
        | inl e ↦ inl (skipped_done image previous trivy_version db_version digest m found e)
        | inr e ↦ elim (Result-cases (w.run_scan (reference image))) [
          | inr (x, r) ↦ inr (x, rw (e, scan_or_skip, r) refl)
          | inl (raw, r) ↦ elim (Result-cases (w.parse_report raw)) [
            | inr (x, p) ↦ inr (x, rw (e, scan_or_skip, r, p) refl)
            | inl (report, p) ↦
                let (ran, done) =
                  scanned_done image report digest trivy_version db_version raw m p in
                inl (rw (e, scan_or_skip, r, p, ran) done)
          ]
        ]
      ]

  execute_image-cases :
      (image : Image)
      → In image db.images
      → get_image image.id db.images ≡ some image
      → IsDoneOrRaised (execute_image w job image opened)
  unfolding execute_image commit
  execute_image-cases image m found = elim (Result-cases w.probe_versions) [
    | inr (x, e) ↦ inr (x, rw (e, execute_image) refl)
    | inl (versions, e) ↦
        elim (Result-cases (w.resolve_digest (parse_reference image.name image.tag))) [
          | inr (x, d) ↦ inr (x, rw (e, execute_image, d) refl)
          | inl (digest, d) ↦
              rw (e, execute_image, d)
                (scan_or_skip-cases image (last_successful_run image.id db.runs) versions.0
                  versions.1 digest m found)
        ]
  ]

  pub execute_job-cases : IsDoneOrRaised (execute_job w job opened)
  unfolding execute_job
  execute_job-cases = elim (Option-cases (get_image job.image_id db.images)) [
    | inl e ↦ inl (rw (e, execute_job) (finished db refl refl consistent))
    | inr (image, e) ↦
        let at = find?-In (λ (i : Image). i.id == job.image_id) db.images image e in
        let own : get_image image.id db.images ≡ some image =
          ap (λ k. get_image k db.images) ((==_iff image.id job.image_id).0 at.1) ∙ e in
        rw (e, execute_job) (execute_image-cases image at.0 own)
  ]
