-- ===== src/Examples/Values.antt =====
-- The theorems on severities, references and due times at concrete values (app/domain/severity.py,
-- app/registry/digest.py, app/scheduler/scheduler.py, app/scanner/worker.py, app/scanner/parser.py).
use echo_security_scanner.Base.{
  ◌+◌, ◌≤◌, ◌<◌, ◌≡◌, ◌↔◌, refl, true, none, some, [], ◌∷◌, codes, arith, In, Text, text_eq,
}
use echo_security_scanner.Base.Float.{pos}
use echo_security_scanner.Domain.Models.{Image, ScanRun, RunStatus, seconds}
use echo_security_scanner.Registry.Reference.{is_host}
use echo_security_scanner.Scheduler.{next_due_at}
use echo_security_scanner.Scheduler.Due.{
  failing_more, healthy, next_due_at_grows, next_due_at_failing_early,
}
use echo_security_scanner.Scanner.Worker.{is_success_of, is_unchanged, last_successful_run}
use echo_security_scanner.Scanner.Worker.Unchanged.{
  IsNewestOf, IsSameInputs, skipped_only_unchanged,
}
use echo_security_scanner.Scanner.Parser.{is_rate_limit_error, lower}
use echo_security_scanner.Scanner.Parser.RateLimit.{IsWithin, is_rate_limit_error-IsWithin}

ghcr_is_host : is_host (codes "ghcr.io") ≡ true
unfolding is_host
ghcr_is_host = refl

abbrev hourly : Image
hourly = record {
  id = 1;
  name = codes "nginx";
  tag = codes "latest";
  scan_interval_seconds = some 3600;
  enabled = true;
  current_scan_run_id = none;
  consecutive_failures = 2;
  last_scan_at = some 5;
  last_scan_status = some RunStatus.failed;
  created_at = 1;
}

next_due_at_grows_example :
    (next_due_at hourly 900 86400 ≤ next_due_at (failing_more hourly) 900 86400)
    × (next_due_at (failing_more hourly) 900 86400 ≤ 5 + seconds 86400)
next_due_at_grows_example = next_due_at_grows hourly 5 900 86400 refl (omega arith)

next_due_at_failing_early_example :
    (next_due_at hourly 900 1800 ≡ 5 + seconds 1800)
    × (next_due_at hourly 900 1800 < next_due_at (healthy hourly) 900 1800)
next_due_at_failing_early_example =
    next_due_at_failing_early hourly 5 900 1800 refl (λ e. omega arith) (omega arith)

abbrev last_run : ScanRun
last_run = record {
  id = 1;
  image_id = 1;
  scan_job_id = none;
  started_at = 1;
  completed_at = 2;
  status = RunStatus.success;
  digest = some (codes "sha256:a");
  trivy_version = some (codes "0.50");
  trivy_db_version = some (codes "2");
  scan_flags_hash = some (codes "f");
  duration_ms = pos 0;
  error = none;
  finding_counts = none;
}

unchanged_here :
    is_unchanged
      (last_successful_run 1 (last_run ∷ []))
      (codes "sha256:a")
      (codes "0.50")
      (codes "2")
      (codes "f")
    ≡ true
unfolding is_unchanged last_successful_run text_eq
unchanged_here = refl

skipped_only_unchanged_example :
    (r : ScanRun) × In r (last_run ∷ [])
    × (is_success_of 1 r ≡ true)
    × IsNewestOf (is_success_of 1) r (last_run ∷ [])
    × IsSameInputs r (codes "sha256:a") (codes "0.50") (codes "2") (codes "f")
skipped_only_unchanged_example =
    skipped_only_unchanged 1 (last_run ∷ []) (codes "sha256:a") (codes "0.50") (codes "2")
      (codes "f") unchanged_here

is_rate_limit_error-IsWithin_example :
    (is_rate_limit_error (codes "GET failed: TooManyRequests (hub)") ≡ true) ↔ (
      (marker : Text) × In marker (
        codes "toomanyrequests"
        ∷ codes "too many requests"
        ∷ codes "pull rate limit"
        ∷ codes "rate limit exceeded"
        ∷ [])
      × IsWithin marker (lower (codes "GET failed: TooManyRequests (hub)")))
is_rate_limit_error-IsWithin_example =
    is_rate_limit_error-IsWithin (codes "GET failed: TooManyRequests (hub)")
