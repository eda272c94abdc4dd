-- ===== src/Api/Images/Findings.antt =====
-- What the listing of an image's CVEs holds (`image_cves` of app/api/routes/images.py).
use echo_security_scanner.Base.{
  subst, ◌&&◌, filter_congr, page_of, IsShuffled, IsConnex, order_by-keys, ranked_before,
  ranked_before-IsComparison, ranked_before-IsConnex, on_key, map-page_of, All-shuffled, All-take,
  All-drop, All-order_by, All-append, All-In, All-map, In, In-map, length-map, All_always, ℕ, ◌+◌,
  ◌*◌, ◌≤◌, ◌≡◌, refl, sym, ap, ◌∙◌, Bool, Option, none, some, List, [], ◌∷◌, Text, text_eq, ◌==◌,
  arith, length, filter, filter_map, find?, All, All_imp, map, walk, walk-lem, order_by,
  length-order_by, length-filter_map, ◌++◌, map-append, zero, suc, IsComparison, IsOrdered,
  order_by-perm, order_by-IsOrdered,
}
use mathlib.Core.List.{Perm, map-map}
use echo_security_scanner.Domain.Severity.{Severity, rank}
use echo_security_scanner.Domain.Models.{Image, ScanRun, Package, Cve, Finding}
use echo_security_scanner.Domain.Database.{Db, option_eq}
use echo_security_scanner.Api.Schemas.{Page, CveInImage}
use echo_security_scanner.Api.Params.{PageParams}
use echo_security_scanner.Api.Images.{
  Joined, join_finding, finding_before, finding_rows, cve_in_image, is_shown, shown_findings,
  full_page,
}

-- The keys in a finding name rows.
pub record IsLinked (db : Db) (f : Finding) : Type 0 where
  pub cve : (c : Cve) × (find? (λ c. text_eq c.id f.cve_id) db.cves ≡ some c)
  pub package_row : (p : Package) × (find? (λ p. p.id == f.package_id) db.packages ≡ some p)
  pub first_run : (r : ScanRun) × (find? (λ r. r.id == f.first_seen_run_id) db.runs ≡ some r)
  pub last_run : (r : ScanRun) × (find? (λ r. r.id == f.last_seen_run_id) db.runs ≡ some r)

join_linked : (db : Db) (f : Finding) → IsLinked db f → (j : Joined) × (join_finding db f ≡ some j)
unfolding join_finding
join_linked db f l = (
  record {
    finding = f;
    cve = l.cve.0;
    package_row = l.package_row.0;
    first_run = l.first_run.0;
    last_run = l.last_run.0;
  },
  rw (l.cve.1, join_finding, l.package_row.1, l.first_run.1, l.last_run.1) refl,
)

All-filter_only :
    (P : Finding → Type 0) (p : Finding → Bool) (fs : List Finding) → All P fs → All P (filter p fs)
All-filter_only P p [] h = tt
All-filter_only P p (f ∷ fs) h = ground (arith, All-filter_only P p fs h.1)

rows_counted :
    (image : Image) (severity : Option Severity) (db : Db)
    → All (IsLinked db) db.findings
    → length (finding_rows image severity db)
      ≡ length (filter (is_shown image severity) db.findings)
unfolding finding_rows
rows_counted image severity db linked =
    length-filter_map (join_finding db) (filter (is_shown image severity) db.findings) (
      All_imp (IsLinked db) _ _ (join_linked db)
        (All-filter_only (IsLinked db) (is_shown image severity) db.findings linked))

-- The items that a client meets who asks for `n` pages, raising the offset by the limit. Each request
-- meets the rows in an order of its own.
pub walked :
    (ℕ → List Joined → List Joined)
    → (Text → Text → Bool)
    → Option Severity
    → Image
    → Db
    → ℕ
    → ℕ
    → ℕ
    → List CveInImage
walked meets collate severity image db limit zero offset = []
walked meets collate severity image db limit (suc n) offset =
    (shown_findings (meets offset) collate (record { limit = limit; offset = offset }) severity
      image db).items
    ++ walked meets collate severity image db limit n (offset + limit)

at_some :
    {A : Type 0} (o : Option ℕ) {k : ℕ} (a b : A)
    → o ≡ some k
    → elim o as (λ _. A) [ none ↦ a | some _ ↦ b ] ≡ b
at_some none a b e = cc
at_some (some k) a b e = refl

shown_full :
    (meets : List Joined → List Joined) (collate : Text → Text → Bool) (params : PageParams)
    (severity : Option Severity) (image : Image) (db : Db) {run : ℕ}
    → image.current_scan_run_id ≡ some run
    → shown_findings meets collate params severity image db
      ≡ full_page meets collate params severity image db
unfolding shown_findings
shown_full meets collate params severity image db e = at_some image.current_scan_run_id _ _ e

-- What the ORDER BY compares.
abbrev pub FindingKey : Type 0
FindingKey = ℕ × Text

abbrev finding_key : Joined → FindingKey
finding_key j = (j.finding.severity_rank, j.finding.cve_id)

finding_before-IsComparison :
    (collate : Text → Text → Bool) → IsComparison collate → IsComparison (finding_before collate)
finding_before-IsComparison collate c =
    on_key finding_key (ranked_before collate) (ranked_before-IsComparison collate c)

-- The rows in one order that the ORDER BY allows.
abbrev sorted_rows : (Text → Text → Bool) → Option Severity → Image → Db → List Joined
sorted_rows collate severity image db =
    order_by (finding_before collate) (finding_rows image severity db)

module _ (meets : ℕ → List Joined → List Joined)
    (shuffles : (request : ℕ) (rows : List Joined) → IsShuffled (meets request rows) rows)
    (collate : Text → Text → Bool) (c : IsComparison collate) (connex : IsConnex collate)
    (severity : Option Severity) (image : Image) (db : Db) (run : ℕ)
    (current : image.current_scan_run_id ≡ some run) where
  same_cves :
      (request : ℕ)
      → map
          (λ j. j.finding.cve_id)
          (order_by (finding_before collate) (meets request (finding_rows image severity db)))
        ≡ map (λ j. j.finding.cve_id) (sorted_rows collate severity image db)
  same_cves request =
      sym (map-map (λ (k : FindingKey). k.1) finding_key _)
      ∙ ap (map (λ (k : FindingKey). k.1)) (
          order_by-keys finding_key (ranked_before collate) (ranked_before-IsComparison collate c)
            (ranked_before-IsConnex collate connex)
            (shuffles request (finding_rows image severity db)))
      ∙ map-map (λ (k : FindingKey). k.1) finding_key _

  page_cves :
      (limit offset : ℕ)
      → map
          (λ i. i.cve_id)
          (shown_findings
            (meets offset)
            collate
            (record { limit = limit; offset = offset })
            severity
            image
            db).items
        ≡ page_of limit offset (map (λ j. j.finding.cve_id) (sorted_rows collate severity image db))
  unfolding full_page
  page_cves limit offset =
      let params : PageParams = record { limit = limit; offset = offset } in
      ap (λ (p : Page CveInImage). map (λ i. i.cve_id) p.items)
        (shown_full (meets offset) collate params severity image db current)
      ∙ map-map (λ (i : CveInImage). i.cve_id) cve_in_image _
      ∙ map-page_of (λ (j : Joined). j.finding.cve_id) limit offset _
      ∙ ap (page_of limit offset) (same_cves offset)

  walked_cves :
      (limit n offset : ℕ)
      → map (λ i. i.cve_id) (walked meets collate severity image db limit n offset)
        ≡ walk limit n offset (map (λ j. j.finding.cve_id) (sorted_rows collate severity image db))
  unfolding walked walk
  walked_cves limit zero offset = refl
  walked_cves limit (suc n) offset =
      rw (map-append, page_cves limit offset, walked_cves limit n (offset + limit)) refl

-- A finding of the image that its run `run` saw, of the severity, if one is asked for.
abbrev pub is_of_run : Image → ℕ → Option Severity → Finding → Bool
is_of_run image run none f = f.image_id == image.id && f.last_seen_run_id == run
is_of_run image run (some s) f =
    f.image_id == image.id && f.last_seen_run_id == run && f.severity_rank == rank s

shown_of_run :
    (image : Image) (run : ℕ) (severity : Option Severity) (f : Finding)
    → image.current_scan_run_id ≡ some run
    → is_shown image severity f ≡ is_of_run image run severity f
shown_of_run image run none f e =
    ground (arith, ap (λ o. option_eq ◌==◌ o (some f.last_seen_run_id)) e)
shown_of_run image run (some s) f e =
    ground (arith, ap (λ o. option_eq ◌==◌ o (some f.last_seen_run_id)) e)

rows_of_run :
    (image : Image) (run : ℕ) (severity : Option Severity) (db : Db)
    → image.current_scan_run_id ≡ some run
    → finding_rows image severity db
      ≡ filter_map (join_finding db) (filter (is_of_run image run severity) db.findings)
unfolding finding_rows
rows_of_run image run severity db e = ap (filter_map (join_finding db)) (
    filter_congr (is_shown image severity) _ db.findings
      (All_always _ (λ f. shown_of_run image run severity f e) db.findings))

-- Every item that a client meets is a row of the statement.
walked_rows :
    (meets : ℕ → List Joined → List Joined) (collate : Text → Text → Bool)
    (severity : Option Severity) (image : Image) (db : Db) (limit n offset run : ℕ)
    → ((request : ℕ) (rows : List Joined) → IsShuffled (meets request rows) rows)
    → image.current_scan_run_id ≡ some run
    → All
        (λ i. In i (map cve_in_image (finding_rows image severity db)))
        (walked meets collate severity image db limit n offset)
unfolding walked full_page
walked_rows meets collate severity image db limit zero offset run shuffles e = tt
walked_rows meets collate severity image db limit (suc n) offset run shuffles e =
    let rows = finding_rows image severity db in
    let Is : CveInImage → Type 0 = λ i. In i (map cve_in_image rows) in
    let params : PageParams = record { limit = limit; offset = offset } in
    All-append Is _ _
      (rw (shown_full (meets offset) collate params severity image db e) (
        All-map Is cve_in_image _ (
          All-take _ limit _ (
            All-drop _ offset _ (
              All-order_by _ (finding_before collate) (meets offset rows) (
                All-shuffled (λ j. Is (cve_in_image j)) (shuffles offset rows)
                  (All_imp _ _ rows (λ j m. In-map cve_in_image m) (All-In rows))))))))
      (walked_rows meets collate severity image db limit n (offset + limit) run shuffles e)

-- Where every finding's keys name rows, the database's order of texts is an order in which only equal
-- texts tie, and each request may break the ties of its ORDER BY in its own way: a client who walks
-- through enough pages of a scanned image meets as many items as the total says, each of them a
-- finding of the image's current run with the severity asked for, with its CVE, package and runs; and
-- the CVEs of the items are in order those of all these findings, the worst first and by CVE within
-- one severity, so each CVE as often as it has findings there.
pub image_cves_walk :
    (meets : ℕ → List Joined → List Joined) (collate : Text → Text → Bool)
    (severity : Option Severity) (image : Image) (db : Db) (run limit n : ℕ) (params : PageParams)
    → ((request : ℕ) (rows : List Joined) → IsShuffled (meets request rows) rows)
    → IsComparison collate
    → IsConnex collate
    → All (IsLinked db) db.findings
    → image.current_scan_run_id ≡ some run
    → (shown_findings (meets 0) collate params severity image db).pagination.total ≤ n * limit
    → let shown =
        filter_map (join_finding db) (filter (is_of_run image run severity) db.findings) in
      let items = walked meets collate severity image db limit n 0 in
      All (λ i. In i (map cve_in_image shown)) items
      × ((rows : List Joined) × (map (λ i. i.cve_id) items ≡ map (λ j. j.finding.cve_id) rows)
          × Perm rows shown
          × IsOrdered (finding_before collate) rows)
      × (length items
          ≡ (shown_findings (meets 0) collate params severity image db).pagination.total)
unfolding full_page finding_rows
image_cves_walk meets collate severity image db run limit n params shuffles c connex linked e
      enough =
    let rows = finding_rows image severity db in
    let sorted = order_by (finding_before collate) rows in
    let items = walked meets collate severity image db limit n 0 in
    let total : (shown_findings (meets 0) collate params severity image db).pagination.total
        ≡ length rows =
      ap (λ (p : Page CveInImage). p.pagination.total)
        (shown_full (meets 0) collate params severity image db e)
      ∙ sym (rows_counted image severity db linked) in
    let ids = map (λ (j : Joined). j.finding.cve_id) sorted in
    let counted : length ids ≡ length rows =
      length-map (λ (j : Joined). j.finding.cve_id) sorted
      ∙ length-order_by (finding_before collate) rows in
    let met : map (λ (i : CveInImage). i.cve_id) items ≡ ids =
      walked_cves meets shuffles collate c connex severity image db run e limit n 0
      ∙ walk-lem limit n 0 ids (omega (arith, total, counted)) in
    (
      subst (λ rs. All (λ i. In i (map cve_in_image rs)) items)
          (rows_of_run image run severity db e)
          (walked_rows meets collate severity image db limit n 0 run shuffles e),
      (
        sorted,
        met,
        subst (Perm sorted) (rows_of_run image run severity db e)
            (order_by-perm (finding_before collate) rows),
        order_by-IsOrdered (finding_before collate) rows (finding_before-IsComparison collate c),
      ),
      sym (length-map (λ (i : CveInImage). i.cve_id) items) ∙ ap length met ∙ counted ∙ sym total,
    )
