-- ===== src/Api/Cves.antt =====
-- `list_cves` and `cve_images` of app/api/routes/cves.py. `collate` is the database's order of texts.
pub mod Listed
pub mod Joins
pub mod Carriers
use echo_security_scanner.Base.{
  ℕ, Bool, true, ◌&&◌, ◌||◌, Option, none, some, List, [], Text, text_eq, ◌==◌, ltb, if◌then◌else◌,
  length, filter, filter_map, find?, any, map, order_by, page_of, not,
}
use echo_security_scanner.Domain.Severity.{Severity, rank}
use echo_security_scanner.Domain.Models.{Image, ScanRun, Package, Cve, Finding}
use echo_security_scanner.Domain.Database.{Db, get_image, option_eq}
use echo_security_scanner.Api.Params.{PageParams}
use echo_security_scanner.Api.Schemas.{
  Pagination, Page, Answer, not_modified, missing, shown, CveSummary, ImageAffectedByCve,
}

-- The conditions on a CVE: found in some image, and of the severity, if one is given.
abbrev pub has_max_rank : Option Severity → Cve → Bool
has_max_rank none c = true
has_max_rank (some s) c = c.max_severity_rank == rank s

abbrev pub is_listed : Option Severity → Cve → Bool
is_listed severity c = ltb 0 c.affected_image_count && has_max_rank severity c

-- ORDER BY max_severity_rank DESC, id.
abbrev pub cve_before : (Text → Text → Bool) → Cve → Cve → Bool
cve_before collate a b =
    ltb b.max_severity_rank a.max_severity_rank
    || a.max_severity_rank == b.max_severity_rank && collate a.id b.id

abbrev pub cve_summary : Cve → CveSummary
cve_summary c = record {
  cve_id = c.id;
  title = c.title;
  max_severity = c.max_severity;
  published_at = c.published_at;
  last_modified_at = c.last_modified_at;
  affected_image_count = c.affected_image_count;
}

unfoldable pub listed_page :
    (Text → Text → Bool) → PageParams → Option Severity → Db → Page CveSummary
listed_page collate params severity db = record {
  items = map cve_summary (
      page_of params.limit params.offset
        (order_by (cve_before collate) (filter (is_listed severity) db.cves)));
  pagination = record {
    total = length (filter (is_listed severity) db.cves);
    limit = params.limit;
    offset = params.offset;
  };
}

unfoldable pub list_cves :
    (Text → Text → Bool) → Bool → PageParams → Option Severity → Db → Answer CveSummary
unfolding listed_page
list_cves collate unchanged params severity db =
    if unchanged then not_modified else shown (listed_page collate params severity db)

-- The join of a finding with its image, where the finding is of the image's current run.
unfoldable pub current_image : Db → Finding → Option Image
current_image db f = elim (get_image f.image_id db.images) [
  | none ↦ none
  | some i ↦ if option_eq ◌==◌ i.current_scan_run_id (some f.last_seen_run_id) then some i else none
]

pub record Affected : Type 0 where
  pub finding : Finding
  pub image : Image
  pub package_row : Package
  pub run : ScanRun

-- The further joins, on primary keys.
unfoldable pub join_affected : Db → Finding → Option Affected
unfolding current_image
join_affected db f = elim (current_image db f) [
  | none ↦ none
  | some i ↦ elim (find? (λ p. p.id == f.package_id) db.packages) [
    | none ↦ none
    | some p ↦ elim (find? (λ r. r.id == f.last_seen_run_id) db.runs) [
      | none ↦ none
      | some r ↦ some (record { finding = f; image = i; package_row = p; run = r })
    ]
  ]
]

-- ORDER BY severity_rank DESC, name, tag.
abbrev pub affected_before : (Text → Text → Bool) → Affected → Affected → Bool
affected_before collate a b =
    ltb b.finding.severity_rank a.finding.severity_rank
    || a.finding.severity_rank == b.finding.severity_rank
      && (collate a.image.name b.image.name
          || text_eq a.image.name b.image.name && collate a.image.tag b.image.tag)

abbrev pub affected_image : Affected → ImageAffectedByCve
affected_image a = record {
  name = a.image.name;
  tag = a.image.tag;
  digest = a.run.digest;
  severity = a.finding.severity;
  package_ref = record {
    name = a.package_row.name;
    version = a.package_row.version;
    type = a.package_row.type;
  };
  fixed_version = a.finding.fixed_version;
  last_seen_at = some a.run.completed_at;
}

abbrev pub names_cve : Text → Finding → Bool
names_cve cve_id f = text_eq f.cve_id cve_id

-- `meets` is the order in which the statement meets the rows, which decides between rows that tie.
unfoldable pub affected_page :
    (List Affected → List Affected)
    → (Text → Text → Bool)
    → PageParams
    → Text
    → Db
    → Page ImageAffectedByCve
unfolding join_affected
affected_page meets collate params cve_id db = record {
  items = map affected_image (
      page_of params.limit params.offset (
        order_by (affected_before collate)
          (meets (filter_map (join_affected db) (filter (names_cve cve_id) db.findings)))));
  pagination = record {
    total = length (filter_map (current_image db) (filter (names_cve cve_id) db.findings));
    limit = params.limit;
    offset = params.offset;
  };
}

unfoldable pub cve_images :
    (List Affected → List Affected)
    → (Text → Text → Bool)
    → Bool
    → Text
    → PageParams
    → Db
    → Answer ImageAffectedByCve
unfolding affected_page
cve_images meets collate unchanged cve_id params db =
    if unchanged
    then not_modified
    else if not (any (λ c. text_eq c.id cve_id) db.cves)
    then missing
    else shown (affected_page meets collate params cve_id db)
