-- ===== src/Scanner/Sightings.antt =====
-- `_upsert_findings` of app/scanner/persist.py: the findings of one run are written.
pub mod Laws
pub mod Distinct
use echo_security_scanner.Base.{
  ℕ, ◌+◌, Bool, true, false, ◌&&◌, ◌||◌, Option, none, some, List, [], ◌∷◌, ◌++◌, Text, codes,
  text_eq, ◌==◌, if◌then◌else◌, any, filter, length,
}
use echo_security_scanner.Errors.{Exception, other, ok, raise, Exec}
use echo_security_scanner.Domain.Severity.{Severity, unknown, low, medium, high, critical, rank}
use echo_security_scanner.Domain.Models.{Finding, FindingCounts}
use echo_security_scanner.Domain.Database.{Db}
use echo_security_scanner.Scanner.Parser.{ParsedFinding}
use echo_security_scanner.Scanner.Upsert.{PackageKey, package_key}

-- One row that the statement proposes, with the id that it takes if it is inserted.
unfoldable pub proposed : ℕ → ℕ → ParsedFinding → ℕ → ℕ → Finding
proposed image_id run_id f package_id next = record {
  id = next;
  image_id = image_id;
  cve_id = f.cve_id;
  package_id = package_id;
  fixed_version = f.fixed_version;
  severity = f.severity;
  severity_rank = rank f.severity;
  first_seen_run_id = run_id;
  last_seen_run_id = run_id;
}

-- The rows; a finding whose package has no id is passed over.
unfoldable pub proposed_rows :
    ℕ → ℕ → (PackageKey → Option ℕ) → List ParsedFinding → ℕ → List Finding
unfolding proposed package_key
proposed_rows image_id run_id package_ids [] next = []
proposed_rows image_id run_id package_ids (f ∷ fs) next = elim (package_ids (package_key f)) [
  | none ↦ proposed_rows image_id run_id package_ids fs next
  | some p ↦
      proposed image_id run_id f p next ∷ proposed_rows image_id run_id package_ids fs (next + 1)
]

-- The columns of `uq_finding_img_cve_pkg` agree.
unfoldable pub same_row : Finding → Finding → Bool
same_row f g = f.image_id == g.image_id && text_eq f.cve_id g.cve_id && f.package_id == g.package_id

unfoldable pub has_duplicates : List Finding → Bool
unfolding same_row
has_duplicates [] = false
has_duplicates (f ∷ fs) = any (same_row f) fs || has_duplicates fs

-- What the update sets; `first_seen_run_id` stays.
abbrev pub seen_again : Finding → Finding → Finding
seen_again new row = record row {
  fixed_version = new.fixed_version;
  severity = new.severity;
  severity_rank = new.severity_rank;
  last_seen_run_id = new.last_seen_run_id;
}

unfoldable pub upsert_finding : Finding → List Finding → List Finding
unfolding same_row
upsert_finding new [] = new ∷ []
upsert_finding new (row ∷ rows) =
    if same_row new row then seen_again new row ∷ rows else row ∷ upsert_finding new rows

unfoldable pub upsert_rows : List Finding → List Finding → List Finding
unfolding upsert_finding
upsert_rows [] table = table
upsert_rows (new ∷ rest) table = upsert_rows rest (upsert_finding new table)

abbrev is_severity : Severity → Severity → Bool
is_severity s t = rank s == rank t

unfoldable pub count_severity : Severity → List Finding → ℕ
count_severity s rows = length (filter (λ f. is_severity s f.severity) rows)

-- `Counter(…)` of the rows, read by `counts.get(severity, 0)`.
unfoldable pub count_rows : List Finding → FindingCounts
unfolding count_severity
count_rows rows = record {
  critical_count = count_severity critical rows;
  high_count = count_severity high rows;
  medium_count = count_severity medium rows;
  low_count = count_severity low rows;
  unknown_count = count_severity unknown rows;
}

abbrev pub cardinality_violation : Exception
cardinality_violation =
    other (codes "CardinalityViolation")
      (codes "ON CONFLICT DO UPDATE command cannot affect row a second time")

-- PostgreSQL refuses an upsert that proposes one row twice.
unfoldable pub upsert_findings :
    ℕ → ℕ → (PackageKey → Option ℕ) → List ParsedFinding → Exec Db FindingCounts
unfolding proposed_rows has_duplicates upsert_rows count_rows
upsert_findings image_id run_id package_ids findings db =
    let rows = proposed_rows image_id run_id package_ids findings db.seq.next_finding in
    let db' = record db {
      seq = record db.seq { next_finding = db.seq.next_finding + length rows };
    } in
    if has_duplicates rows
    then (raise cardinality_violation, db')
    else (ok (count_rows rows), record db' { findings = upsert_rows rows db.findings })
