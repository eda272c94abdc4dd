-- ===== src/Api/Images.antt =====
-- `list_images` and `image_cves` of app/api/routes/images.py. `collate` is the database's order of
-- texts: whether the first stands strictly before the second.
pub mod Summaries
pub mod Findings
use echo_security_scanner.Base.{
  ℕ, Bool, ◌&&◌, ◌||◌, Option, none, some, List, [], ◌∷◌, Text, text_eq, ◌==◌, ltb, if◌then◌else◌,
  or_else_nat, length, filter, filter_map, find?, any, map, order_by, page_of, codes, true,
}
use echo_security_scanner.Config.{Settings}
use echo_security_scanner.Errors.{Result, ok, raise, other}
use echo_security_scanner.Domain.Severity.{Severity, rank}
use echo_security_scanner.Domain.Models.{Image, ScanRun, FindingCounts, Package, Cve, Finding}
use echo_security_scanner.Domain.Database.{Db, option_eq}
use echo_security_scanner.Api.Params.{PageParams}
use echo_security_scanner.Api.Requests.{is_named}
use echo_security_scanner.Api.Schemas.{
  Pagination, Page, Answer, not_modified, missing, shown, SeverityCounts, no_counts, counts_total,
  ImageSummary, PackageRef, CveInImage,
}

-- ORDER BY name, tag.
abbrev pub image_before : (Text → Text → Bool) → Image → Image → Bool
image_before collate a b = collate a.name b.name || text_eq a.name b.name && collate a.tag b.tag

-- A summary before the runs are read.
abbrev pub bare_summary : Settings → Image → ImageSummary
bare_summary settings i = record {
  name = i.name;
  tag = i.tag;
  digest = none;
  last_scan_at = i.last_scan_at;
  last_scan_status = i.last_scan_status;
  consecutive_failures = i.consecutive_failures;
  scan_interval_seconds =
      or_else_nat i.scan_interval_seconds settings.default_scan_interval_seconds;
  total_cves = 0;
  severity_counts = no_counts;
}

-- `counts[…] or 0`
abbrev pub counts_of : Option FindingCounts → SeverityCounts
counts_of none = no_counts
counts_of (some c) = record {
  critical = c.critical_count;
  high = c.high_count;
  medium = c.medium_count;
  low = c.low_count;
  unknown = c.unknown_count;
}

abbrev pub summarised : ScanRun → ImageSummary → ImageSummary
summarised r s = record s {
  digest = r.digest;
  severity_counts = counts_of r.finding_counts;
  total_cves = counts_total (counts_of r.finding_counts);
}

-- The join: the run is the current one of some image.
abbrev pub is_pointed : List Image → ScanRun → Bool
is_pointed images r = any (λ i. option_eq ◌==◌ i.current_scan_run_id (some r.id)) images

-- The loop over the joined runs, at the summary of one image.
unfoldable pub fill_summary : List ScanRun → Image → ImageSummary → ImageSummary
fill_summary [] i s = s
fill_summary (r ∷ rest) i s =
    let s' = if r.image_id == i.id then summarised r s else s in fill_summary rest i s'

unfoldable pub image_page : (Text → Text → Bool) → PageParams → Db → List Image
image_page collate params db =
    page_of params.limit params.offset (order_by (image_before collate) db.images)

unfoldable pub list_images :
    (Text → Text → Bool) → Bool → PageParams → Settings → Db → Answer ImageSummary
unfolding image_page fill_summary
list_images collate unchanged params settings db =
    if unchanged
    then not_modified
    else shown (record {
      items =
          map
            (λ i. fill_summary (filter (is_pointed db.images) db.runs) i (bare_summary settings i))
            (image_page collate params db);
      pagination = record {
        total = length db.images;
        limit = params.limit;
        offset = params.offset;
      };
    })

-- The conditions on a finding: of the image's current run, and of the severity, if one is given.
abbrev pub has_rank : Option Severity → Finding → Bool
has_rank none f = true
has_rank (some s) f = f.severity_rank == rank s

abbrev pub is_shown : Image → Option Severity → Finding → Bool
is_shown image severity f =
    f.image_id == image.id
    && option_eq ◌==◌ image.current_scan_run_id (some f.last_seen_run_id)
    && has_rank severity f

-- A row of the joins: a finding with the rows that its keys name.
pub record Joined : Type 0 where
  pub finding : Finding
  pub cve : Cve
  pub package_row : Package
  pub first_run : ScanRun
  pub last_run : ScanRun

-- The joins on primary keys: at most one row, and none where a key names nothing.
unfoldable pub join_finding : Db → Finding → Option Joined
join_finding db f = elim (find? (λ c. text_eq c.id f.cve_id) db.cves) [
  | none ↦ none
  | some c ↦ elim (find? (λ p. p.id == f.package_id) db.packages) [
    | none ↦ none
    | some p ↦ elim (find? (λ r. r.id == f.first_seen_run_id) db.runs) [
      | none ↦ none
      | some a ↦ elim (find? (λ r. r.id == f.last_seen_run_id) db.runs) [
        | none ↦ none
        | some b ↦
            some (record { finding = f; cve = c; package_row = p; first_run = a; last_run = b })
      ]
    ]
  ]
]

-- ORDER BY severity_rank DESC, cve_id.
abbrev pub finding_before : (Text → Text → Bool) → Joined → Joined → Bool
finding_before collate a b =
    ltb b.finding.severity_rank a.finding.severity_rank
    || a.finding.severity_rank == b.finding.severity_rank
      && collate a.finding.cve_id b.finding.cve_id

abbrev pub cve_in_image : Joined → CveInImage
cve_in_image j = record {
  cve_id = j.finding.cve_id;
  title = j.cve.title;
  severity = j.finding.severity;
  package_ref = record {
    name = j.package_row.name;
    version = j.package_row.version;
    type = j.package_row.type;
  };
  fixed_version = j.finding.fixed_version;
  first_seen_at = some j.first_run.completed_at;
  last_seen_at = some j.last_run.completed_at;
}

unfoldable pub finding_rows : Image → Option Severity → Db → List Joined
unfolding join_finding
finding_rows image severity db =
    filter_map (join_finding db) (filter (is_shown image severity) db.findings)

abbrev pub empty_page : PageParams → Page CveInImage
empty_page params = record {
  items = [];
  pagination = record { total = 0; limit = params.limit; offset = params.offset };
}

-- The page of an image that has a current run. `meets` is the order in which the statement meets the
-- rows, which the database may choose anew for each request: of rows that tie in the ORDER BY, it
-- decides which comes first.
unfoldable pub full_page :
    (List Joined → List Joined)
    → (Text → Text → Bool)
    → PageParams
    → Option Severity
    → Image
    → Db
    → Page CveInImage
unfolding finding_rows
full_page meets collate params severity image db = record {
  items = map cve_in_image (
      page_of params.limit params.offset
        (order_by (finding_before collate) (meets (finding_rows image severity db))));
  pagination = record {
    total = length (filter (is_shown image severity) db.findings);
    limit = params.limit;
    offset = params.offset;
  };
}

-- The part of `image_cves` for an image that was found.
unfoldable pub shown_findings :
    (List Joined → List Joined)
    → (Text → Text → Bool)
    → PageParams
    → Option Severity
    → Image
    → Db
    → Page CveInImage
shown_findings meets collate params severity image db = elim image.current_scan_run_id [
  | none ↦ empty_page params
  | some _ ↦ full_page meets collate params severity image db
]

-- `scalar_one_or_none()` of the images, and what follows it.
found_findings :
    (List Joined → List Joined)
    → (Text → Text → Bool)
    → PageParams
    → Option Severity
    → Db
    → List Image
    → Result (Answer CveInImage)
unfolding shown_findings
found_findings meets collate params severity db [] = ok missing
found_findings meets collate params severity db (image ∷ []) =
    ok (shown (shown_findings meets collate params severity image db))
found_findings meets collate params severity db (i ∷ j ∷ rest) =
    raise (other (codes "MultipleResultsFound") [])

unfoldable pub image_cves :
    (List Joined → List Joined)
    → (Text → Text → Bool)
    → Bool
    → Text
    → Text
    → PageParams
    → Option Severity
    → Db
    → Result (Answer CveInImage)
unfolding found_findings
image_cves meets collate unchanged name tag params severity db =
    if unchanged
    then ok not_modified
    else found_findings meets collate params severity db (filter (is_named name tag) db.images)
