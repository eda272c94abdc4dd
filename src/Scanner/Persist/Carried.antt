-- ===== src/Scanner/Persist/Carried.antt =====
-- What a recorded scan leaves in the derived columns of the CVEs, told by the images and their current
-- runs alone (`record_success` and `_recompute_cve_rollup` of app/scanner/persist.py).
use echo_security_scanner.Base.{
  ℕ, ◌+◌, ◌≤◌, ◌<◌, ◌≡◌, ◌≢◌, refl, sym, ap, ◌∙◌, Bool, true, ◌&&◌, ◌||◌, Option, some, List, [],
  ◌∷◌, Text, text_eq, arith, ◌==◌, ==_iff, if◌then◌else◌, filter, filter_congr, any, length, All,
  leb, All_imp, All-In, In, here, there, IsUnique, Bool-cases, inl, inr, In-filter, filter-In,
  any-In, In-any,
}
use echo_security_scanner.Errors.{ok}
use echo_security_scanner.Domain.Models.{Image, Cve, Finding}
use echo_security_scanner.Domain.Database.{Db, option_eq}
use echo_security_scanner.Scanner.Parser.{ParsedReport}
use echo_security_scanner.Scanner.Parser.Dedup.{IsDistinct}
use echo_security_scanner.Scanner.Rollup.{
  is_current, of_cve, current_findings, max_rank, count_images, severity_at,
}
use echo_security_scanner.Scanner.Rollup.Meaning.{IsRolledUp}
use echo_security_scanner.Scanner.Persist.{RunMetadata, record_success}
use echo_security_scanner.Scanner.Persist.Outcome.{success_run}
use echo_security_scanner.Scanner.Persist.Consistency.{
  IsConsistent, is_current_at, record_success-IsConsistent,
}

-- The finding is of this CVE, and the image's current run saw it there.
abbrev pub shows : Text → Image → Finding → Bool
shows cve_id i f =
    text_eq f.cve_id cve_id
    && f.image_id == i.id
    && option_eq ◌==◌ (some f.last_seen_run_id) i.current_scan_run_id

-- Some finding shows the CVE in the image.
abbrev pub carries : Text → List Finding → Image → Bool
carries cve_id findings i = any (shows cve_id i) findings

-- The derived columns of a CVE: no image shows it with a rank above the CVE's, some image shows it
-- with that rank unless that is 0, the severity is the rank's, and the count is that of the images that
-- carry it.
pub record IsTold (db : Db) (c : Cve) : Type 0 where
  pub above_all :
      (i : Image) (f : Finding)
      → In i db.images
      → In f db.findings
      → shows c.id i f ≡ true
      → f.severity_rank ≤ c.max_severity_rank
  pub attained :
      0 < c.max_severity_rank
      → (i : Image) × (f : Finding) × In i db.images
        × In f db.findings
        × (shows c.id i f ≡ true)
        × (f.severity_rank ≡ c.max_severity_rank)
  pub severity : c.max_severity ≡ severity_at c.max_severity_rank
  pub counted : c.affected_image_count ≡ length (filter (carries c.id db.findings) db.images)

max_rank-In-le : (fs : List Finding) {f : Finding} → In f fs → f.severity_rank ≤ max_rank fs
unfolding max_rank
max_rank-In-le [] m = elim m [ ]
max_rank-In-le (g ∷ fs) here = omega arith
max_rank-In-le (g ∷ fs) (there m) = omega (arith, max_rank-In-le fs m)

max_rank-attained :
    (fs : List Finding)
    → 0 < max_rank fs
    → (f : Finding) × In f fs × (f.severity_rank ≡ max_rank fs)
unfolding max_rank
max_rank-attained [] h = absurd (omega arith)
max_rank-attained (g ∷ fs) h = elim (Bool-cases (leb (max_rank fs) g.severity_rank)) [
  | inl e ↦ (g, here, ground arith)
  | inr e ↦ let (f, m, k) = max_rank-attained fs (ground arith) in (f, there m, ground (arith, k))
]

-- Some finding of the list is of the image.
abbrev held : List Finding → Image → Bool
held gs i = any (λ g. g.image_id == i.id) gs

filter_absent :
    (images : List Image) (k : ℕ) (p : Image → Bool)
    → All (λ i. i.id ≢ k) images
    → length (filter (λ i. k == i.id || p i) images) ≡ length (filter p images)
filter_absent [] k p h = refl
filter_absent (i ∷ images) k p h = ground (arith, filter_absent images k p h.1)

-- One image more is counted, unless it was counted already.
filter_one_more :
    (images : List Image) (k : ℕ) (p : Image → Bool) (already : Bool)
    → IsUnique (λ (i : Image). i.id) images
    → any (λ i. i.id == k) images ≡ true
    → ((i : Image) → i.id ≡ k → p i ≡ already)
    → length (filter (λ i. k == i.id || p i) images)
      ≡ (if already then length (filter p images) else length (filter p images) + 1)
filter_one_more [] k p already u h same = absurd (ground arith)
filter_one_more (i ∷ images) k p already u h same = elim (Bool-cases (i.id == k)) [
  | inl e ↦
      let own : i.id ≡ k = (==_iff i.id k).0 e in
      ground (arith, same i own, filter_absent images k p (rw own at u.0))
  | inr e ↦ ground (arith, filter_one_more images k p already u.1 (ground arith) same)
]

filter_nobody : (images : List Image) → length (filter (held []) images) ≡ 0
filter_nobody [] = refl
filter_nobody (i ∷ images) = filter_nobody images

count_images-held :
    (images : List Image) (gs : List Finding)
    → IsUnique (λ (i : Image). i.id) images
    → All (λ g. any (λ i. i.id == g.image_id) images ≡ true) gs
    → count_images gs ≡ length (filter (held gs) images)
unfolding count_images
count_images-held images [] u h = sym (filter_nobody images)
count_images-held images (g ∷ gs) u h = rw (count_images-held images gs u h.1) (
    sym (
      filter_one_more images g.image_id (held gs) (any (λ x. x.image_id == g.image_id) gs) u h.0
        (λ i e. rw e refl)))

module _ (images : List Image) (unique : IsUnique (λ (i : Image). i.id) images) (c : Text) where
  -- At an image of the table, a current finding is one that shows the CVE.
  held-shows :
      (fs : List Finding) (i : Image)
      → In i images
      → held (current_findings images fs c) i ≡ carries c fs i
  unfolding current_findings
  held-shows [] i m = refl
  held-shows (f ∷ fs) i m = elim (Bool-cases (f.image_id == i.id)) [
    | inl e ↦
        ground (
          arith,
          held-shows fs i m,
          is_current_at images i f unique m ((==_iff f.image_id i.id).0 e),
        )
    | inr e ↦ ground (arith, held-shows fs i m)
  ]

  own_image :
      (f : Finding) → is_current images f ≡ true → any (λ i. i.id == f.image_id) images ≡ true
  unfolding is_current
  own_image f h = let (i, m, k) = any-In _ images h in In-any _ images m (ground (arith, k))

  own_images :
      (fs : List Finding)
      → All (λ g. any (λ i. i.id == g.image_id) images ≡ true) (current_findings images fs c)
  unfolding current_findings
  own_images fs =
      All_imp _ _ (current_findings images fs c)
        (λ f m. own_image f (filter-In (is_current images) (filter (of_cve c) fs) m).1)
        (All-In (current_findings images fs c))

  counted_lem :
      (fs : List Finding)
      → count_images (current_findings images fs c) ≡ length (filter (carries c fs) images)
  counted_lem fs =
      count_images-held images (current_findings images fs c) unique (own_images fs)
      ∙ ap length
          (filter_congr _ _ images (All_imp _ _ images (λ i m. held-shows fs i m) (All-In images)))

  -- What shows the CVE is among its current findings.
  shown_current :
      (fs : List Finding) (i : Image) (f : Finding)
      → In i images
      → In f fs
      → shows c i f ≡ true
      → In f (current_findings images fs c)
  unfolding current_findings is_current
  shown_current fs i f m n h =
      In-filter (is_current images) (filter (of_cve c) fs)
        (In-filter (of_cve c) fs n (ground arith)) (In-any _ images m (ground arith))

  current_shown :
      (fs : List Finding) (f : Finding)
      → In f (current_findings images fs c)
      → (i : Image) × In i images × In f fs × (shows c i f ≡ true)
  unfolding current_findings is_current
  current_shown fs f m =
      let (n, h) = filter-In (is_current images) (filter (of_cve c) fs) m in
      let (k, o) = filter-In (of_cve c) fs n in
      let (i, j, e) = any-In _ images h in (i, j, k, ground arith)

IsRolledUp-IsTold :
    (db : Db) (c : Cve)
    → IsUnique (λ (i : Image). i.id) db.images
    → IsRolledUp db.images db.findings c
    → IsTold db c
IsRolledUp-IsTold db c unique h = record {
  above_all = λ i f m n s. rw h.rank (
      max_rank-In-le (current_findings db.images db.findings c.id)
        (shown_current db.images unique c.id db.findings i f m n s));
  attained = λ pos.
      let (f, m, e) =
        max_rank-attained (current_findings db.images db.findings c.id) (rw h.rank at pos) in
      let (i, j, k, s) = current_shown db.images unique c.id db.findings f m in
      (i, f, j, k, s, e ∙ sym h.rank);
  severity = h.severity;
  counted = h.count ∙ counted_lem db.images unique c.id db.findings;
}

-- From a consistent database, for a report as `parse_report` makes it and the image's row as it was
-- loaded: after `record_success` no CVE has an image whose current run saw it with a rank above the
-- CVE's, and unless that is 0, some image's current run saw it with that very rank; its severity is
-- the one of that rank; and its image count is the number of images whose current run saw it, each
-- counted once however many of its packages are affected.
pub record_success-IsTold :
    (image : Image) (job_id : Option ℕ) (report : ParsedReport) (meta : RunMetadata) (db : Db)
    → IsConsistent db
    → In image db.images
    → IsDistinct report.findings
    → (out : Db) × (record_success image job_id report meta db
        ≡ (ok (success_run image job_id report meta db), out))
      × All (IsTold out) out.cves
record_success-IsTold image job_id report meta db sound loaded distinct =
    let (out, e, after) =
      record_success-IsConsistent image job_id report meta db sound loaded distinct in
    (
      out,
      e,
      All_imp _ _ out.cves (λ c h. IsRolledUp-IsTold out c after.images_unique h) after.rolled_up,
    )
