-- ===== src/Scanner/Persist/Unscanned.antt =====
-- What a skip and a failed attempt leave alone (`record_skip`, `record_failure` of
-- app/scanner/persist.py).
use echo_security_scanner.Base.{
  ℕ, ◌≡◌, refl, sym, ◌∙◌, ap, Bool, Option, none, some, List, [], ◌∷◌, ◌++◌, map, Text, ◌==◌,
  ==_iff, arith, In, All, All_imp, All-In, IsUnique, IsUnique-at, find?_key, Bool-cases, inl, inr,
  take,
}
use echo_security_scanner.Errors.{Result, ok}
use echo_security_scanner.Domain.Models.{RunStatus, Image, ScanRun}
use echo_security_scanner.Domain.Database.{Db, get_image, flush_image, merge_image, put_image}
use echo_security_scanner.Scanner.Persist.{
  RunMetadata, duration_ms, add_run, skipped, record_skip, failed_once, record_failure,
}

-- The run that a skip or a failure writes.
abbrev pub unscanned_run : Image → Option ℕ → RunStatus → RunMetadata → Option Text → Db → ScanRun
unscanned_run image job_id status meta error db = record {
  id = db.seq.next_run;
  image_id = image.id;
  scan_job_id = job_id;
  started_at = meta.started_at;
  completed_at = meta.completed_at;
  status = status;
  digest = meta.digest;
  trivy_version = meta.trivy_version;
  trivy_db_version = meta.trivy_db_version;
  scan_flags_hash = meta.scan_flags_hash;
  duration_ms = duration_ms meta;
  error = error;
  finding_counts = none;
}

-- The run is returned and added behind the others; the findings, CVEs, packages and jobs stay.
pub record IsAddedRun (run : ScanRun) (db : Db) (out : Result ScanRun × Db) : Type 0 where
  pub returned : out.0 ≡ ok run
  pub runs : out.1.runs ≡ db.runs ++ run ∷ []
  pub findings : out.1.findings ≡ db.findings
  pub cves : out.1.cves ≡ db.cves
  pub packages : out.1.packages ≡ db.packages
  pub jobs : out.1.jobs ≡ db.jobs

-- Which run's findings are current for which image.
abbrev pub pointers : List Image → List (ℕ × Option ℕ)
pointers images = map (λ i. (i.id, i.current_scan_run_id)) images

module _ (image : Image) (job_id : Option ℕ) (meta : RunMetadata) (db : Db) where
  pub record_skip-IsAddedRun :
      (row : Image)
      → get_image image.id db.images ≡ some row
      → IsAddedRun
          (unscanned_run image job_id RunStatus.skipped meta none db)
          db
          (record_skip image job_id meta db)
  unfolding record_skip add_run flush_image
  record_skip-IsAddedRun row found = record {
    returned = rw found refl;
    runs = rw found refl;
    findings = rw found refl;
    cves = rw found refl;
    packages = rw found refl;
    jobs = rw found refl;
  }

  pub record_failure-IsAddedRun :
      (error : Text) (exhausted : Bool) (row : Image)
      → get_image image.id db.images ≡ some row
      → IsAddedRun
          (unscanned_run image job_id RunStatus.failed meta (some (take 4000 error)) db)
          db
          (record_failure image job_id meta error exhausted db)
  unfolding record_failure add_run flush_image
  record_failure-IsAddedRun error exhausted row found = record {
    returned = rw found refl;
    runs = rw found refl;
    findings = rw found refl;
    cves = rw found refl;
    packages = rw found refl;
    jobs = rw found refl;
  }

-- The images after another image took the place of one with its id and pointer.
put_image-pointers :
    (new : Image) (images : List Image)
    → All (λ i. i.id ≡ new.id → i.current_scan_run_id ≡ new.current_scan_run_id) images
    → pointers (put_image new images) ≡ pointers images
put_image-pointers new [] h = refl
put_image-pointers new (i ∷ images) h =
    let rest = put_image-pointers new images h.1 in
    elim (Bool-cases (i.id == new.id)) [
      | inl e ↦ rw (e, rest, h.0 ((==_iff i.id new.id).0 e), (==_iff i.id new.id).0 e) refl
      | inr e ↦ rw (e, rest) refl
    ]

others_alone :
    (row new : Image) (images : List Image)
    → IsUnique (λ (i : Image). i.id) images
    → In row images
    → new.id ≡ row.id
    → new.current_scan_run_id ≡ row.current_scan_run_id
    → pointers (put_image new images) ≡ pointers images
others_alone row new images u m same kept = put_image-pointers new images (
    All_imp (λ i. In i images) _ images
      (λ i k e.
        ap (λ (x : Image). x.current_scan_run_id)
          (IsUnique-at (λ (x : Image). x.id) images u k m (e ∙ same))
        ∙ sym kept)
      (All-In images))

-- A skip at the image's row: its run is added, no finding, CVE, package or job changes, and every
-- image's findings stay current.
pub record_skip_keeps :
    (image : Image) (job_id : Option ℕ) (meta : RunMetadata) (db : Db)
    → IsUnique (λ (i : Image). i.id) db.images
    → In image db.images
    → let out = record_skip image job_id meta db in
      IsAddedRun (unscanned_run image job_id RunStatus.skipped meta none db) db out
      × (pointers out.1.images ≡ pointers db.images)
unfolding record_skip add_run flush_image merge_image
record_skip_keeps image job_id meta db u m =
    let found = find?_key (λ (i : Image). i.id) db.images u m in
    (
      record_skip-IsAddedRun image job_id meta db image found,
      rw found (
          others_alone image (merge_image image (skipped image meta) image) db.images u m refl
            (ground arith)),
    )

-- The same of a failed attempt at the image's row, whether the job gave up or not; the run holds the
-- first 4000 characters of the message.
pub record_failure_keeps :
    (image : Image) (job_id : Option ℕ) (meta : RunMetadata) (error : Text) (exhausted : Bool)
    (db : Db)
    → IsUnique (λ (i : Image). i.id) db.images
    → In image db.images
    → let out = record_failure image job_id meta error exhausted db in
      IsAddedRun
        (unscanned_run image job_id RunStatus.failed meta (some (take 4000 error)) db)
        db
        out
      × (pointers out.1.images ≡ pointers db.images)
unfolding record_failure add_run flush_image merge_image
record_failure_keeps image job_id meta error exhausted db u m =
    let found = find?_key (λ (i : Image). i.id) db.images u m in
    (
      record_failure-IsAddedRun image job_id meta db error exhausted image found,
      rw found (
          others_alone image (merge_image image (failed_once exhausted image meta) image) db.images
            u m refl (ground arith)),
    )
