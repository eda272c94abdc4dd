-- ===== src/Scanner/Persist/Consistency.antt =====
-- A recorded scan keeps the derived columns of every CVE right (`record_success` of
-- app/scanner/persist.py).
use echo_security_scanner.Base.{
  ℕ, ◌+◌, ◌<◌, ◌≡◌, refl, sym, ◌∙◌, ap, subst, true, false, Option, none, some, List, [], ◌∷◌, map,
  Text, text_eq, text_eq_refl, arith, ◌==◌, ==_iff, filter, any-append, All, All_imp, In,
  Bool-cases, inl, inr, IsUnique, find?_key, Option-cases, map-IsUnique, All_always, All_at,
  All_and, All-filter, filter_congr, here, there, ◌≢◌, ◌&&◌,
}
use echo_security_scanner.Errors.{ok}
use echo_security_scanner.Domain.Models.{Image, Cve, Finding}
use echo_security_scanner.Domain.Database.{Db, put_image, option_eq}
use echo_security_scanner.Scanner.Parser.{ParsedFinding, ParsedReport}
use echo_security_scanner.Scanner.Parser.Dedup.{IsDistinct}
use echo_security_scanner.Scanner.Upsert.{new_cve, collect_all, upsert_packages}
use echo_security_scanner.Scanner.Upsert.Cves.{SameRollup, upsert_all_cves-All, collect_all-All}
use echo_security_scanner.Scanner.Upsert.Packages.{
  ArePackages, upsert_packages-ArePackages, upsert_packages-IsInjective,
}
use echo_security_scanner.Scanner.Sightings.{proposed, upsert_rows}
use echo_security_scanner.Scanner.Sightings.Laws.{
  upsert_rows-other, proposed_rows-other, upsert_rows-All, proposed_rows-All,
}
use echo_security_scanner.Scanner.Sightings.Distinct.{proposed_rows_distinct}
use echo_security_scanner.Scanner.Rollup.{
  is_current, of_cve, current_findings, severity_at, max_rank, count_images, member,
  recompute_cve_rollup,
}
use echo_security_scanner.Scanner.Rollup.Meaning.{
  IsRolledUp, IsRolledUp_of_same, IsRecomputable, IsRecomputable-new, recompute-SameTables,
  is_current-put_image_ne, is_current-put_image_old, recompute-IsRolledUp,
}
use echo_security_scanner.Scanner.Persist.{RunMetadata, current_cve_ids, scanned, record_success}
use echo_security_scanner.Scanner.Persist.Outcome.{
  affected, sightings, IsWritten, success_run, record_success-IsWritten,
}

-- The database between two transactions: distinct image ids, findings of runs that the sequence has
-- passed, and derived columns that are right.
pub record IsConsistent (db : Db) : Type 0 where
  pub images_unique : IsUnique (λ (i : Image). i.id) db.images
  pub packages : ArePackages db.packages db.seq.next_package
  pub runs_passed : All (λ f. f.last_seen_run_id < db.seq.next_run) db.findings
  pub rolled_up : All (IsRolledUp db.images db.findings) db.cves

absent :
    (images : List Image) (f : Finding)
    → All (λ i. i.id ≢ f.image_id) images
    → is_current images f ≡ false
unfolding is_current
absent [] f h = refl
absent (i ∷ images) f h = ground (arith, absent images f h.1)

-- At its own image a finding is current by that image's pointer.
pub is_current_at :
    (images : List Image) (image : Image) (f : Finding)
    → IsUnique (λ (i : Image). i.id) images
    → In image images
    → f.image_id ≡ image.id
    → is_current images f ≡ option_eq ◌==◌ (some f.last_seen_run_id) image.current_scan_run_id
unfolding is_current
is_current_at [] image f u m e = elim m [ ]
is_current_at (i ∷ images) image f u here e = ground (arith, absent images f (rw e u.0))
is_current_at (i ∷ images) image f u (there m) e =
    ground (arith, All_at (λ j. j.id ≢ i.id) u.0 m, is_current_at images image f u.1 m e)

-- What says that a finding of this CVE was not current for the image.
abbrev IsStale : Image → Text → Finding → Type 0
IsStale image c f =
    of_cve c f ≡ true
    → f.image_id ≡ image.id
    → option_eq ◌==◌ (some f.last_seen_run_id) image.current_scan_run_id ≡ false

IsStale-at :
    (image : Image) (run : ℕ) (c : Text) (findings : List Finding)
    → image.current_scan_run_id ≡ some run
    → member c (
        map
          (λ f. f.cve_id)
          (filter (λ f. f.image_id == image.id && f.last_seen_run_id == run) findings))
      ≡ false
    → All (IsStale image c) findings
IsStale-at image run c [] e h = tt
IsStale-at image run c (f ∷ findings) e h =
    (λ o p. ground arith, IsStale-at image run c findings e (ground arith))

never_scanned :
    (image : Image) (c : Text) (findings : List Finding)
    → image.current_scan_run_id ≡ none
    → All (IsStale image c) findings
never_scanned image c [] e = tt
never_scanned image c (f ∷ findings) e =
    (λ o p. ground (arith, e), never_scanned image c findings e)

stale :
    (image : Image) (c : Text) (findings : List Finding)
    → member c (current_cve_ids image findings) ≡ false
    → All (IsStale image c) findings
unfolding current_cve_ids
stale image c findings h = elim (Option-cases image.current_scan_run_id) [
  | inl e ↦ never_scanned image c findings e
  | inr (run, e) ↦ IsStale-at image run c findings e (rw (e, current_cve_ids) at h)
]

IsRecomputable-same :
    (images : List Image) (findings : List Finding) (ids : List Text) (row new : Cve)
    → SameRollup row new
    → IsRecomputable images findings ids row
    → IsRecomputable images findings ids new
IsRecomputable-same images findings ids row new same (s, k) = (
  same.severity ∙ s ∙ ap severity_at (sym same.rank),
  λ out.
      let h = k (subst (λ id. member id ids ≡ false) same.id out) in
      record {
        rank =
            same.rank
            ∙ h.rank
            ∙ ap (λ id. max_rank (current_findings images findings id)) (sym same.id);
        count =
            same.count
            ∙ h.count
            ∙ ap (λ id. count_images (current_findings images findings id)) (sym same.id);
        severity = same.severity ∙ s ∙ ap severity_at (sym same.rank);
      },
)

members :
    (fs : List ParsedFinding) (ids : List Text)
    → ((c : Text) → member c (map (λ f. f.cve_id) fs) ≡ true → member c ids ≡ true)
    → All (λ f. member f.cve_id ids ≡ true) fs
members [] ids g = tt
members (f ∷ fs) ids g =
    (g f.cve_id (rw (text_eq_refl f.cve_id)), members fs ids (λ c m. g c (ground (arith, m))))

module _ (image : Image) (report : ParsedReport) (meta : RunMetadata) (db : Db)
    (sound : IsConsistent db) (loaded : In image db.images) where
  -- A finding of a CVE that the scan does not affect is current after it if it was before.
  still_current :
      (c : Text) (f : Finding)
      → f.last_seen_run_id < db.seq.next_run
      → IsStale image c f
      → of_cve c f ≡ true
      → is_current (put_image (scanned image db.seq.next_run meta) db.images) f
        ≡ is_current db.images f
  still_current c f lt st o = elim (Bool-cases (image.id == f.image_id)) [
    | inr ne ↦ is_current-put_image_ne (scanned image db.seq.next_run meta) db.images f ne
    | inl eq ↦
        let same : image.id ≡ f.image_id = (==_iff image.id f.image_id).0 eq in
        is_current-put_image_old (scanned image db.seq.next_run meta) db.images f db.seq.next_run
          same refl lt
        ∙ sym (
            is_current_at db.images image f sound.images_unique loaded (sym same) ∙ st o (sym same))
  ]

  either :
      (c : Text)
      → member c (affected image report db) ≡ false
      → (member c (current_cve_ids image db.findings) ≡ false)
        × (member c (map (λ f. f.cve_id) report.findings) ≡ false)
  either c h = ground (
    arith,
    any-append (λ id. text_eq id c) (current_cve_ids image db.findings)
        (map (λ f. f.cve_id) report.findings),
  )

  unaffected :
      (c : Text)
      → member c (affected image report db) ≡ false
      → current_findings
          (put_image (scanned image db.seq.next_run meta) db.images)
          (upsert_rows (sightings image report db) db.findings)
          c
        ≡ current_findings db.images db.findings c
  unfolding current_findings
  unaffected c h =
      let none_before : member c (current_cve_ids image db.findings) ≡ false = (either c h).0 in
      let none_reported : member c (map (λ f. f.cve_id) report.findings) ≡ false = (either c h).1 in
      rw
        (upsert_rows-other c (sightings image report db) db.findings (
          proposed_rows-other c image.id db.seq.next_run _ report.findings db.seq.next_finding
            none_reported))
        (filter_congr _ _ (filter (of_cve c) db.findings) (
          All-filter _ (of_cve c) db.findings (
            All_imp _ _ db.findings (λ f k o. still_current c f k.0 k.1 o)
              (All_and _ _ db.findings sound.runs_passed (stale image c db.findings none_before)))))

  reported_member :
      (c : Text)
      → member c (map (λ f. f.cve_id) report.findings) ≡ true
      → member c (affected image report db) ≡ true
  reported_member c h = ground (
    arith,
    any-append (λ id. text_eq id c) (current_cve_ids image db.findings)
        (map (λ f. f.cve_id) report.findings),
  )

  recomputable :
      (mid : Db)
      → IsWritten image report meta db mid
      → All (IsRecomputable mid.images mid.findings (affected image report db)) mid.cves
  unfolding new_cve
  recomputable mid w = rw w.cves (
      upsert_all_cves-All (IsRecomputable mid.images mid.findings (affected image report db))
        (λ row new same k. IsRecomputable-same _ _ _ row new same k)
        (collect_all report.findings []) db.cves
        (All_imp _ _ (collect_all report.findings [])
          (λ c m. IsRecomputable-new _ _ _ (new_cve c) refl refl m)
          (collect_all-All (λ id. member id (affected image report db) ≡ true) report.findings []
            (members report.findings _ reported_member) tt))
        (All_imp _ _ db.cves
          (λ c k. (
            k.severity,
            λ out.
                IsRolledUp_of_same db.images mid.images db.findings mid.findings c
                  (rw (w.images, w.findings) (unaffected c.id out)) k,
          ))
          sound.rolled_up))

  passed :
      All
        (λ f. f.last_seen_run_id < db.seq.next_run + 1)
        (upsert_rows (sightings image report db) db.findings)
  unfolding proposed
  passed =
      upsert_rows-All (λ f. f.last_seen_run_id < db.seq.next_run + 1) (λ new row p q. p)
        (sightings image report db) db.findings
        (proposed_rows-All (λ f. f.last_seen_run_id < db.seq.next_run + 1) image.id db.seq.next_run
          _ report.findings _ (All_always _ (λ f p n. omega arith) report.findings))
        (All_imp _ _ db.findings (λ f l. omega arith) sound.runs_passed)

  -- After the last step the database is consistent again.
  recorded :
      (mid : Db)
      → IsWritten image report meta db mid
      → IsConsistent (recompute_cve_rollup (affected image report db) mid)
  recorded mid w =
      let same = recompute-SameTables (affected image report db) mid in
      record {
        images_unique =
            rw (same.images, w.images)
              (map-IsUnique (λ (i : Image). i.id) _ (λ i. ground arith) db.images
                sound.images_unique);
        packages =
            rw (same.packages, same.seq, w.packages, w.next_package)
              (upsert_packages-ArePackages report db sound.packages);
        runs_passed = rw (same.findings, same.seq, w.findings, w.next_run) passed;
        rolled_up =
            rw (same.images, same.findings)
              (recompute-IsRolledUp (affected image report db) mid (recomputable mid w));
      }

-- From a consistent database, for a report as `parse_report` makes it and the image's row as it was
-- loaded: `record_success` raises nothing, and the database is consistent after it. So the rank,
-- severity and image count of every CVE are again those of its current findings, also of a CVE that
-- vanished from the image.
pub record_success-IsConsistent :
    (image : Image) (job_id : Option ℕ) (report : ParsedReport) (meta : RunMetadata) (db : Db)
    → IsConsistent db
    → In image db.images
    → IsDistinct report.findings
    → (out : Db) × (record_success image job_id report meta db
        ≡ (ok (success_run image job_id report meta db), out))
      × IsConsistent out
record_success-IsConsistent image job_id report meta db sound loaded distinct =
    let (mid, w, e) =
      record_success-IsWritten image job_id report meta db
        (find?_key (λ (i : Image). i.id) db.images sound.images_unique loaded)
        (proposed_rows_distinct image.id db.seq.next_run (upsert_packages report db).0
          report.findings db.seq.next_finding (upsert_packages-IsInjective report db sound.packages)
          distinct) in
    (
      recompute_cve_rollup (affected image report db) mid,
      e,
      recorded image report meta db sound loaded mid w,
    )
