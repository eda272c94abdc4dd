-- ===== src/Scanner/Parser.antt =====
-- app/scanner/parser.py: a Trivy report becomes findings. `json.loads` and `datetime.fromisoformat`
-- are parameters. The theorems are in the modules below.
pub mod Dedup
pub mod Report
pub mod RateLimit
pub mod SmallReport
use echo_security_scanner.Base.{
  ℕ, ◌+◌, ◌⊎◌, inl, inr, Bool, true, false, ◌&&◌, ◌||◌, Option, none, some, List, [], ◌∷◌, ◌++◌,
  Text, codes, text_eq, strip, is_empty, contains, ◌==◌, leb, ltb, if◌then◌else◌, any, or_else,
}
use echo_security_scanner.Errors.{Result, ok, raise, trivy_report_error, other, and_then}
use echo_security_scanner.Domain.Models.{Time}
use echo_security_scanner.Domain.Severity.{Severity, unknown, rank, parse_severity}
use echo_security_scanner.Scanner.Json.{
  Json, Items, Fields, null, bool, number, string, array, object, nil, cons, end, field, get,
  truthy, type_name,
}

pub record ParsedFinding : Type 0 where
  pub cve_id : Text
  pub package_name : Text
  pub package_version : Text
  pub package_type : Text
  pub severity : Severity
  pub fixed_version : Option Text
  pub title : Option Text
  pub description : Option Text
  pub published_at : Option Time
  pub last_modified_at : Option Time

-- Equality of `key`s.
unfoldable pub same_key : ParsedFinding → ParsedFinding → Bool
same_key f g =
    text_eq f.cve_id g.cve_id
    && text_eq f.package_name g.package_name
    && text_eq f.package_version g.package_version
    && text_eq f.package_type g.package_type

pub record ParsedReport : Type 0 where
  pub digest : Option Text
  pub artifact_name : Option Text
  pub findings : List ParsedFinding

-- What `datetime.fromisoformat` returns: the year, whether it names no offset, the time that its
-- fields show, and the moment that it means where it names an offset.
pub record IsoTime : Type 0 where
  pub year : ℕ
  pub naive : Bool
  pub shown : Time
  pub moment : Time

abbrev pub rate_limit_markers : List Text
rate_limit_markers =
    codes "toomanyrequests"
    ∷ codes "too many requests"
    ∷ codes "pull rate limit"
    ∷ codes "rate limit exceeded"
    ∷ []

-- `str.lower()` at one code point. Of the code points above ASCII, the two stand here whose lower
-- case holds an ASCII letter.
lower_char : ℕ → Text
lower_char c =
    if leb b'A' c && leb c b'Z'
    then (c + 32) ∷ []
    else if c == 0x130
    then codes "i" ++ 0x307 ∷ []
    else if c == 0x212A
    then codes "k"
    else c ∷ []

unfoldable pub lower : Text → Text
unfolding lower_char
lower [] = []
lower (c ∷ cs) = lower_char c ++ lower cs

-- At a message that is not `None`.
unfoldable pub is_rate_limit_error : Text → Bool
unfolding lower
is_rate_limit_error message =
    if is_empty message
    then false
    else any (λ marker. contains marker (lower message)) rate_limit_markers

unfoldable pub clean : Json → Option Text
unfolding strip
clean (string s) = let stripped = strip s in if is_empty stripped then none else some stripped
clean _ = none

-- `raw.replace("Z", "+00:00")`
replace_z : Text → Text
replace_z [] = []
replace_z (c ∷ cs) = (if c == b'Z' then codes "+00:00" else c ∷ []) ++ replace_z cs

-- What stands behind the first `@`, if there is one.
after_at : Text → Option Text
after_at [] = none
after_at (c ∷ cs) = if c == b'@' then some cs else after_at cs

-- The first entry of `RepoDigests` that is a string with an `@`.
repo_digest : Items → Option Text
unfolding after_at
repo_digest nil = none
repo_digest (cons (string s) rest) = elim (after_at s) [
  | none ↦ repo_digest rest
  | some digest ↦ some digest
]
repo_digest (cons _ rest) = repo_digest rest

image_id : Json → Option Text
image_id (string s) = if is_empty s then none else some s
image_id _ = none

repo_digests : Json → Option Text
unfolding repo_digest
repo_digests (array entries) = repo_digest entries
repo_digests _ = none

unfoldable pub extract_digest : Fields → Option Text
unfolding repo_digests image_id
extract_digest metadata = elim (repo_digests (get (codes "RepoDigests") metadata)) [
  | none ↦ image_id (get (codes "ImageID") metadata)
  | some digest ↦ some digest
]

-- `parse_severity` at a JSON value: `strip` is a method of texts alone.
severity_of : Json → Result Severity
severity_of (string s) = ok (parse_severity (some s))
severity_of value =
    if truthy value
    then raise (
        other (codes "AttributeError")
          (codes "'" ++ type_name value ++ codes "' object has no attribute 'strip'"))
    else ok unknown

-- `deduped[finding.key] = finding`, where none with the key is there or its rank is lower. A dict
-- keeps the place of a key that it has.
unfoldable pub keep_highest : ParsedFinding → List ParsedFinding → List ParsedFinding
unfolding same_key
keep_highest f [] = f ∷ []
keep_highest f (g ∷ gs) =
    if same_key f g
    then (if ltb (rank g.severity) (rank f.severity) then f else g) ∷ gs
    else g ∷ keep_highest f gs

module _ (loads : Text → Text ⊎ Json) (from_iso_format : Text → Option IsoTime) where
  parse_iso : Option IsoTime → Option Time
  parse_iso none = none
  parse_iso (some t) = if leb t.year 1 then none else some (if t.naive then t.shown else t.moment)

  unfoldable pub parse_datetime : Json → Option Time
  unfolding parse_iso replace_z
  parse_datetime (string s) = if is_empty s then none else parse_iso (from_iso_format (replace_z s))
  parse_datetime _ = none

  -- One vulnerability with its two names.
  build_finding : Text → Fields → Text → Text → Result ParsedFinding
  unfolding severity_of clean parse_datetime
  build_finding package_type v cve_id package_name =
      and_then (severity_of (get (codes "Severity") v)) (λ severity. ok (record {
        cve_id = cve_id;
        package_name = package_name;
        package_version = or_else (clean (get (codes "InstalledVersion") v)) (codes "unknown");
        package_type = package_type;
        severity = severity;
        fixed_version = clean (get (codes "FixedVersion") v);
        title = clean (get (codes "Title") v);
        description = clean (get (codes "Description") v);
        published_at = parse_datetime (get (codes "PublishedDate") v);
        last_modified_at = parse_datetime (get (codes "LastModifiedDate") v);
      }))

  -- One entry of `Vulnerabilities`; none is a `continue`.
  pub parse_vulnerability : Text → Json → Result (Option ParsedFinding)
  unfolding build_finding
  parse_vulnerability package_type (object v) = elim (clean (get (codes "VulnerabilityID") v)) [
    | none ↦ ok none
    | some cve_id ↦ elim (clean (get (codes "PkgName") v)) [
      | none ↦ ok none
      | some name ↦ and_then (build_finding package_type v cve_id name) (λ f. ok (some f))
    ]
  ]
  parse_vulnerability package_type _ = ok none

  keep : Option ParsedFinding → List ParsedFinding → List ParsedFinding
  unfolding keep_highest
  keep none deduped = deduped
  keep (some f) deduped = keep_highest f deduped

  -- The inner loop, over the dict so far.
  pub scan_vulnerabilities : Text → Items → List ParsedFinding → Result (List ParsedFinding)
  unfolding keep
  scan_vulnerabilities package_type nil deduped = ok deduped
  scan_vulnerabilities package_type (cons v rest) deduped =
      and_then (parse_vulnerability package_type v)
        (λ found. scan_vulnerabilities package_type rest (keep found deduped))

  -- `x or []`, where anything else than a list is passed over.
  pub list_or_skip : Json → Items
  list_or_skip (array items) = items
  list_or_skip _ = nil

  -- One entry of `Results`.
  pub scan_result : Json → List ParsedFinding → Result (List ParsedFinding)
  unfolding scan_vulnerabilities list_or_skip
  scan_result (object result) deduped =
      scan_vulnerabilities (or_else (clean (get (codes "Type") result)) (codes "unknown"))
        (list_or_skip (get (codes "Vulnerabilities") result)) deduped
  scan_result _ deduped = ok deduped

  -- The outer loop.
  pub scan_results : Items → List ParsedFinding → Result (List ParsedFinding)
  unfolding scan_result
  scan_results nil deduped = ok deduped
  scan_results (cons r rest) deduped = and_then (scan_result r deduped) (scan_results rest)

  -- `document.get("Results") or []`
  results_of : Json → Result Items
  results_of (array items) = ok items
  results_of value =
      if truthy value
      then raise (trivy_report_error (codes "Trivy Results is not a list"))
      else ok nil

  fields_or_empty : Json → Fields
  fields_or_empty (object metadata) = metadata
  fields_or_empty _ = end

  parse_document : Json → Result ParsedReport
  unfolding results_of fields_or_empty scan_results extract_digest
  parse_document (object document) =
      and_then (results_of (get (codes "Results") document)) (λ results.
        and_then (scan_results results []) (λ findings. ok (record {
          digest = extract_digest (fields_or_empty (get (codes "Metadata") document));
          artifact_name = clean (get (codes "ArtifactName") document);
          findings = findings;
        })))
  parse_document _ = raise (trivy_report_error (codes "Trivy output is not a JSON object"))

  -- The result of `json.loads`, or the text of its `JSONDecodeError`.
  parse_loaded : Text ⊎ Json → Result ParsedReport
  unfolding parse_document
  parse_loaded (inl message) =
      raise (trivy_report_error (codes "Trivy output is not valid JSON: " ++ message))
  parse_loaded (inr document) = parse_document document

  unfoldable pub parse_report : Text → Result ParsedReport
  unfolding parse_loaded
  parse_report raw =
      if is_empty (strip raw)
      then raise (trivy_report_error (codes "Trivy produced no output"))
      else parse_loaded (loads raw)
