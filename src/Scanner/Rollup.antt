-- ===== src/Scanner/Rollup.antt =====
-- `_recompute_cve_rollup` of app/scanner/persist.py: what the current findings say of each CVE.
pub mod Meaning
use echo_security_scanner.Base.{
  ℕ, ◌+◌, max, Bool, true, false, not, ◌&&◌, ◌||◌, Option, none, some, List, [], ◌∷◌, map, Text,
  text_eq, ◌==◌, if◌then◌else◌, any, filter, is_empty, or_else,
}
use echo_security_scanner.Domain.Severity.{Severity, unknown, rank_to_severity}
use echo_security_scanner.Domain.Models.{Image, Cve, Finding}
use echo_security_scanner.Domain.Database.{Db, option_eq}

-- The join of `finding` and `image`, at one finding: it is of its image's current run.
unfoldable pub is_current : List Image → Finding → Bool
is_current images f =
    any (λ i. i.id == f.image_id && option_eq ◌==◌ (some f.last_seen_run_id) i.current_scan_run_id)
      images

abbrev pub of_cve : Text → Finding → Bool
of_cve cve_id f = text_eq f.cve_id cve_id

-- The current findings of one CVE: a group of the subquery.
unfoldable pub current_findings : List Image → List Finding → Text → List Finding
unfolding is_current
current_findings images findings cve_id =
    filter (is_current images) (filter (of_cve cve_id) findings)

-- MAX(severity_rank), 0 for no row.
unfoldable pub max_rank : List Finding → ℕ
max_rank [] = 0
max_rank (f ∷ fs) = max f.severity_rank (max_rank fs)

-- COUNT(DISTINCT image_id)
unfoldable pub count_images : List Finding → ℕ
count_images [] = 0
count_images (f ∷ fs) =
    let rest = count_images fs in if any (λ g. g.image_id == f.image_id) fs then rest else rest + 1

-- `CASE … ELSE 'UNKNOWN' END`
unfoldable pub severity_at : ℕ → Severity
severity_at r = or_else (rank_to_severity r) unknown

-- One row of the update: it is written only where a derived column would change.
unfoldable pub rolled_up : List Image → List Finding → Cve → Cve
unfolding current_findings max_rank count_images severity_at
rolled_up images findings c =
    let group = current_findings images findings c.id in
    if not (c.max_severity_rank == max_rank group)
      || not (c.affected_image_count == count_images group)
    then record c {
      max_severity_rank = max_rank group;
      max_severity = severity_at (max_rank group);
      affected_image_count = count_images group;
    }
    else c

abbrev pub member : Text → List Text → Bool
member t ids = any (λ id. text_eq id t) ids

-- With no ids the statement is not sent, and it would change nothing.
unfoldable pub recompute_cve_rollup : List Text → Db → Db
unfolding rolled_up
recompute_cve_rollup [] db = db
recompute_cve_rollup (id ∷ ids) db = record db {
  cves = map (λ c. if member c.id (id ∷ ids) then rolled_up db.images db.findings c else c) db.cves;
}
