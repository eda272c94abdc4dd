-- ===== src/Scanner/Persist/Between.antt =====
-- The jobs under a recorded success, and the derived columns under a recorded skip
-- (app/scanner/persist.py).
use echo_security_scanner.Base.{
  ℕ, ◌<◌, ◌≤◌, ◌≡◌, refl, sym, ◌∙◌, ap, Option, some, List, [], ◌∷◌, Text, arith, ◌==◌, ◌&&◌,
  filter, any, All_imp, In, IsUnique, find?_key, map-IsUnique, filter_congr, All_always,
}
use echo_security_scanner.Domain.Models.{Image, Finding}
use echo_security_scanner.Domain.Database.{Db, option_eq, flush_image, merge_image, get_image}
use echo_security_scanner.Scanner.Parser.{ParsedReport}
use echo_security_scanner.Scanner.Parser.Dedup.{IsDistinct}
use echo_security_scanner.Scanner.Upsert.{upsert_packages}
use echo_security_scanner.Scanner.Upsert.Packages.{upsert_packages-IsInjective}
use echo_security_scanner.Scanner.Sightings.Distinct.{proposed_rows_distinct}
use echo_security_scanner.Scanner.Rollup.{
  is_current, of_cve, current_findings, recompute_cve_rollup,
}
use echo_security_scanner.Scanner.Rollup.Meaning.{IsRolledUp, IsRolledUp_of_same}
use echo_security_scanner.Scanner.Persist.{RunMetadata, record_success, record_skip, add_run}
use echo_security_scanner.Scanner.Persist.Outcome.{affected, record_success-IsWritten}
use echo_security_scanner.Scanner.Persist.Consistency.{IsConsistent}
use echo_security_scanner.Scanner.Persist.Unscanned.{pointers, record_skip_keeps}

recompute_keeps_jobs :
    (ids : List Text) (mid : Db)
    → ((recompute_cve_rollup ids mid).jobs ≡ mid.jobs)
      × ((recompute_cve_rollup ids mid).seq.next_job ≡ mid.seq.next_job)
unfolding recompute_cve_rollup
recompute_keeps_jobs [] mid = (refl, refl)
recompute_keeps_jobs (id ∷ ids) mid = (refl, refl)

-- A success touches no job.
pub record_success_jobs :
    (image : Image) (job_id : Option ℕ) (report : ParsedReport) (meta : RunMetadata) (db : Db)
    → IsConsistent db
    → In image db.images
    → IsDistinct report.findings
    → let out = (record_success image job_id report meta db).1 in
      (out.jobs ≡ db.jobs) × (out.seq.next_job ≡ db.seq.next_job)
record_success_jobs image job_id report meta db sound loaded distinct =
    let (mid, w, e) =
      record_success-IsWritten image job_id report meta db
        (find?_key (λ (i : Image). i.id) db.images sound.images_unique loaded)
        (proposed_rows_distinct image.id db.seq.next_run (upsert_packages report db).0
          report.findings db.seq.next_finding (upsert_packages-IsInjective report db sound.packages)
          distinct) in
    let kept = recompute_keeps_jobs (affected image report db) mid in
    rw e (kept.0 ∙ w.jobs, kept.1 ∙ w.next_job)

is_current-pointers :
    (images : List Image) (f : Finding)
    → is_current images f
      ≡ any
          (λ (p : ℕ × Option ℕ). p.0 == f.image_id && option_eq ◌==◌ (some f.last_seen_run_id) p.1)
          (pointers images)
unfolding is_current
is_current-pointers [] f = refl
is_current-pointers (i ∷ images) f = ground (arith, is_current-pointers images f)

-- Which findings are current hangs on the pointers alone.
same_current :
    (images images' : List Image) (findings : List Finding) (cve_id : Text)
    → pointers images' ≡ pointers images
    → current_findings images' findings cve_id ≡ current_findings images findings cve_id
unfolding current_findings
same_current images images' findings cve_id e =
    filter_congr (is_current images') (is_current images) (filter (of_cve cve_id) findings) (
      All_always _
        (λ f.
          is_current-pointers images' f
          ∙ ap
              (any (λ (p : ℕ × Option ℕ).
                p.0 == f.image_id && option_eq ◌==◌ (some f.last_seen_run_id) p.1))
              e
          ∙ sym (is_current-pointers images f))
        (filter (of_cve cve_id) findings))

IsConsistent-kept :
    (db out : Db)
    → IsConsistent db
    → IsUnique (λ (i : Image). i.id) out.images
    → out.packages ≡ db.packages
    → out.seq.next_package ≡ db.seq.next_package
    → db.seq.next_run ≤ out.seq.next_run
    → out.findings ≡ db.findings
    → out.cves ≡ db.cves
    → pointers out.images ≡ pointers db.images
    → IsConsistent out
IsConsistent-kept db out sound u p n r f c same = record {
  images_unique = u;
  packages = rw (p, n) sound.packages;
  runs_passed = rw f (
      All_imp (λ (g : Finding). g.last_seen_run_id < db.seq.next_run) _ db.findings
        (λ g k. omega arith) sound.runs_passed);
  rolled_up =
      rw (c, f)
        (All_imp (IsRolledUp db.images db.findings) _ db.cves
          (λ d k.
            IsRolledUp_of_same db.images out.images db.findings db.findings d
              (same_current db.images out.images db.findings d.id same) k)
          sound.rolled_up);
}

-- The sequences and the jobs after a skip.
pub skip_sequences :
    (image : Image) (job_id : Option ℕ) (meta : RunMetadata) (db : Db)
    → get_image image.id db.images ≡ some image
    → IsUnique (λ (i : Image). i.id) db.images
    → let out = (record_skip image job_id meta db).1 in
      (out.seq.next_package ≡ db.seq.next_package)
      × (db.seq.next_run ≤ out.seq.next_run)
      × (out.seq.next_job ≡ db.seq.next_job)
      × IsUnique (λ (i : Image). i.id) out.images
unfolding record_skip add_run flush_image merge_image
skip_sequences image job_id meta db found u =
    rw found (
      refl,
      omega arith,
      refl,
      map-IsUnique (λ (i : Image). i.id) _ (λ i. ground arith) db.images u,
    )

-- A skip keeps a consistent database so.
pub record_skip-IsConsistent :
    (image : Image) (job_id : Option ℕ) (meta : RunMetadata) (db : Db)
    → IsConsistent db
    → In image db.images
    → IsConsistent (record_skip image job_id meta db).1
record_skip-IsConsistent image job_id meta db sound m =
    let found = find?_key (λ (i : Image). i.id) db.images sound.images_unique m in
    let (added, kept) = record_skip_keeps image job_id meta db sound.images_unique m in
    let (p, n, j, u) = skip_sequences image job_id meta db found sound.images_unique in
    IsConsistent-kept db (record_skip image job_id meta db).1 sound u added.packages p n
      added.findings added.cves kept
