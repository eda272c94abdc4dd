-- ===== src/Scanner/Parser/Report.antt =====
-- The findings of a whole report (`parse_report` of app/scanner/parser.py).
use echo_security_scanner.Base.{
  ◌≡◌, refl, sym, ap, ◌∙◌, ◌⊎◌, inr, Option, none, some, List, [], ◌∷◌, ◌++◌, Text, codes, arith,
  All, In, All-In, or_else,
}
use echo_security_scanner.Errors.{Result, ok, and_then-ok, ok_injective}
use echo_security_scanner.Scanner.Json.{Json, Items, Fields, object, nil, cons, get}
use echo_security_scanner.Scanner.Parser.{
  ParsedFinding, ParsedReport, IsoTime, clean, keep_highest, parse_vulnerability,
  scan_vulnerabilities, scan_result, scan_results, list_or_skip, results_of, parse_document,
  parse_report, keep,
}
use echo_security_scanner.Scanner.Parser.Dedup.{
  IsDistinct, Covers, keep_all, keep_all-Covers, keep_all-IsDistinct, keep_all-All,
}

found : Result (Option ParsedFinding) → List ParsedFinding
found (ok (some f)) = f ∷ []
found _ = []

keep_all-append :
    (fs gs deduped : List ParsedFinding)
    → keep_all (fs ++ gs) deduped ≡ keep_all gs (keep_all fs deduped)
unfolding keep_all
keep_all-append [] gs d = refl
keep_all-append (f ∷ fs) gs d = keep_all-append fs gs (keep_highest f d)

module _ (loads : Text → Text ⊎ Json) (from_iso_format : Text → Option IsoTime) where
  -- Every finding that a vulnerability of a list gives by itself.
  pub vulnerabilities_of : Text → Items → List ParsedFinding
  vulnerabilities_of package_type nil = []
  vulnerabilities_of package_type (cons v rest) =
      found (parse_vulnerability loads from_iso_format package_type v)
      ++ vulnerabilities_of package_type rest

  result_findings : Json → List ParsedFinding
  result_findings (object result) =
      vulnerabilities_of (or_else (clean (get (codes "Type") result)) (codes "unknown"))
        (list_or_skip loads from_iso_format (get (codes "Vulnerabilities") result))
  result_findings _ = []

  -- Every finding of every vulnerability of every result.
  pub all_findings : Items → List ParsedFinding
  all_findings nil = []
  all_findings (cons r rest) = result_findings r ++ all_findings rest

  keep-found :
      (o : Option ParsedFinding) (d : List ParsedFinding)
      → keep loads from_iso_format o d ≡ keep_all (found (ok o)) d
  unfolding keep keep_all found
  keep-found none d = refl
  keep-found (some f) d = refl

  scan_vulnerabilities_lem :
      (package_type : Text) (items : Items) (d out : List ParsedFinding)
      → scan_vulnerabilities loads from_iso_format package_type items d ≡ ok out
      → out ≡ keep_all (vulnerabilities_of package_type items) d
  unfolding scan_vulnerabilities vulnerabilities_of keep_all
  scan_vulnerabilities_lem t nil d out h = cc
  scan_vulnerabilities_lem t (cons v rest) d out h =
      let (o, e, k) = and_then-ok (parse_vulnerability loads from_iso_format t v) _ h in
      rw (e, keep_all-append (found (ok o)) (vulnerabilities_of t rest) d, ← keep-found o d)
        (scan_vulnerabilities_lem t rest (keep loads from_iso_format o d) out k)

  scan_result_lem :
      (r : Json) (d out : List ParsedFinding)
      → scan_result loads from_iso_format r d ≡ ok out
      → out ≡ keep_all (result_findings r) d
  unfolding scan_result result_findings keep_all
  scan_result_lem (object result) d out h = scan_vulnerabilities_lem _ _ d out h
  scan_result_lem _ d out h = cc

  scan_results_lem :
      (items : Items) (d out : List ParsedFinding)
      → scan_results loads from_iso_format items d ≡ ok out
      → out ≡ keep_all (all_findings items) d
  unfolding scan_results all_findings keep_all
  scan_results_lem nil d out h = cc
  scan_results_lem (cons r rest) d out h =
      let (mid, e, k) = and_then-ok (scan_result loads from_iso_format r d) _ h in
      rw (keep_all-append (result_findings r) (all_findings rest) d, ← scan_result_lem r d mid e)
        (scan_results_lem rest mid out k)

  results_of_lem :
      (value : Json) (items : Items)
      → results_of loads from_iso_format value ≡ ok items
      → items ≡ list_or_skip loads from_iso_format value
  unfolding results_of list_or_skip
  results_of_lem value items h = ground arith

  -- The entries of a document's `Results`.
  abbrev pub reported : Fields → List ParsedFinding
  reported document =
      all_findings (list_or_skip loads from_iso_format (get (codes "Results") document))

  parse_loaded_of :
      (raw : Text) (document : Json) (report : ParsedReport)
      → loads raw ≡ inr document
      → parse_report loads from_iso_format raw ≡ ok report
      → parse_document loads from_iso_format document ≡ ok report
  unfolding parse_report
  parse_loaded_of raw document report l h = ground (arith, l)

  findings_lem :
      (document : Fields) (report : ParsedReport)
      → parse_document loads from_iso_format (object document) ≡ ok report
      → report.findings ≡ keep_all (reported document) []
  unfolding parse_document
  findings_lem document report h =
      let (items, e, k) =
        and_then-ok (results_of loads from_iso_format (get (codes "Results") document)) _ h in
      let (fs, e', k') = and_then-ok (scan_results loads from_iso_format items []) _ k in
      sym (ap (λ (r : ParsedReport). r.findings) (ok_injective k'))
      ∙ scan_results_lem items [] fs e'
      ∙ ap (λ xs. keep_all (all_findings xs) []) (results_of_lem _ items e)

  -- What a report keeps, when `parse_report` accepts it: no two findings have one key; each finding
  -- that any vulnerability gives by itself is covered by one with its key that is at least as
  -- severe; and each that is kept is one of those.
  pub parse_report_keeps_highest :
      (raw : Text) (document : Fields) (report : ParsedReport)
      → loads raw ≡ inr (object document)
      → parse_report loads from_iso_format raw ≡ ok report
      → IsDistinct report.findings
        × All (Covers report.findings) (reported document)
        × All (λ f. In f (reported document)) report.findings
  parse_report_keeps_highest raw document report l h =
      rw (findings_lem document report (parse_loaded_of raw (object document) report l h)) (
        keep_all-IsDistinct (reported document) [] tt,
        keep_all-Covers (reported document) [],
        keep_all-All (λ f. In f (reported document)) (reported document) []
            (All-In (reported document)) tt,
      )
