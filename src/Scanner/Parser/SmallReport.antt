-- ===== src/Scanner/Parser/SmallReport.antt =====
-- A small report with one finding twice, and what `parse_report` makes of it (app/scanner/parser.py).
use Prim.Native.String.{String}
use echo_security_scanner.Base.{
  ◌≡◌, refl, ◌⊎◌, inr, Option, none, [], ◌∷◌, Text, codes, All, In, text_eq, strip,
}
use echo_security_scanner.Errors.{ok}
use echo_security_scanner.Domain.Severity.{high, parse_severity}
use echo_security_scanner.Scanner.Json.{
  Json, Fields, string, array, object, nil, cons, end, field, get,
}
use echo_security_scanner.Scanner.Parser.{
  ParsedFinding, ParsedReport, IsoTime, parse_report, parse_vulnerability,
}
use echo_security_scanner.Scanner.Parser.Dedup.{IsDistinct, Covers}
use echo_security_scanner.Scanner.Parser.Report.{reported, parse_report_keeps_highest}

abbrev text_field : String → String → Fields → Fields
text_field key value rest = field (codes key) (string (codes value)) rest

abbrev vulnerability : String → Json
vulnerability severity = object (
    text_field "VulnerabilityID" "CVE-1" (
      text_field "PkgName" "zlib"
        (text_field "InstalledVersion" "1.2" (text_field "Severity" severity end))))

abbrev document : Fields
document =
    field (codes "Results")
      (array (
        cons
          (object (
            text_field "Type" "debian" (
              field (codes "Vulnerabilities")
                (array (cons (vulnerability "MEDIUM") (cons (vulnerability "HIGH") nil))) end)))
          nil))
      end

abbrev pub zlib_high : ParsedFinding
zlib_high = record {
  cve_id = codes "CVE-1";
  package_name = codes "zlib";
  package_version = codes "1.2";
  package_type = codes "debian";
  severity = high;
  fixed_version = none;
  title = none;
  description = none;
  published_at = none;
  last_modified_at = none;
}

abbrev pub zlib_report : ParsedReport
zlib_report = record { digest = none; artifact_name = none; findings = zlib_high ∷ [] }

abbrev no_iso : Text → Option IsoTime
no_iso _ = none

abbrev loaded : Text → Text ⊎ Json
loaded _ = inr (object document)

zlib_parsed : parse_report loaded no_iso (codes "{}") ≡ ok zlib_report
unfolding parse_report text_eq strip get parse_vulnerability parse_severity
zlib_parsed = refl

parse_report_keeps_highest_example :
    IsDistinct zlib_report.findings
    × All (Covers zlib_report.findings) (reported loaded no_iso document)
    × All (λ f. In f (reported loaded no_iso document)) zlib_report.findings
parse_report_keeps_highest_example =
    parse_report_keeps_highest loaded no_iso (codes "{}") document zlib_report refl zlib_parsed
