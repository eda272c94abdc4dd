-- ===== src/Examples/Settled.antt =====
-- What failures, skips and throttling leave behind, at the data of the other examples
-- (app/scanner/worker.py, app/scanner/persist.py).
use echo_security_scanner.Base.{
  ℕ, ◌+◌, ◌<◌, ◌⊎◌, ◌≡◌, refl, false, none, some, [], codes, here, take,
}
use echo_security_scanner.Errors.{Exception, rate_limited, raise, ok}
use echo_security_scanner.Config.{Settings}
use echo_security_scanner.Domain.Models.{RunStatus, ScanJob, max_time, seconds}
use echo_security_scanner.Domain.Database.{Session}
use echo_security_scanner.Scanner.Parser.SmallReport.{zlib_report}
use echo_security_scanner.Scanner.Persist.{record_skip, record_failure}
use echo_security_scanner.Scanner.Persist.Unscanned.{
  IsAddedRun, unscanned_run, pointers, record_skip_keeps, record_failure_keeps,
}
use echo_security_scanner.Scanner.Worker.{Surroundings, handle}
use echo_security_scanner.Scanner.Worker.Settling.{
  IsCharged, IsSettled, asked_wait, rolled_back, handle_settles,
}
use echo_security_scanner.Jobs.Queue.{overflow}
use echo_security_scanner.Examples.Queue.{noon, orphan, queued, queued-IsQueueSound}
use echo_security_scanner.Examples.Scans.{nginx, one_scan, scan_meta}

abbrev pub defaults : Settings
defaults = record {
  default_scan_interval_seconds = 900;
  max_failure_backoff_seconds = 86400;
  lease_seconds = 1200;
  max_attempts = 5;
  backoff_base_seconds = 30;
  backoff_max_seconds = 3600;
  trivy_bin = codes "trivy";
  trivy_cache_dir = codes "/trivy-cache";
  trivy_timeout_seconds = 900;
  trivy_server_url = none;
  page_size_default = 100;
  page_size_max = 1000;
}

abbrev pub throttling_hub : Surroundings
throttling_hub = record {
  probe_versions = ok (codes "0.50", codes "2");
  scan_flags_hash = codes "f";
  resolve_digest = λ _. raise (rate_limited (codes "slow down") (some 60));
  run_scan = λ _. ok (codes "{}");
  parse_report = λ _. ok zlib_report;
  started_at = 900;
  completed_at = 950;
  settling = noon;
  failed_at = 1000;
}

abbrev session : Session
session = record { committed = queued; current = record queued { jobs = [] } }

abbrev slow_down : Exception
slow_down = rate_limited (codes "slow down") (some 60)

handle_settles_example :
    ((new : ScanJob) × IsCharged 5 1000 orphan slow_down new
      × IsSettled new session (handle defaults throttling_hub orphan slow_down session))
    ⊎ ((d : ℕ) × (asked_wait slow_down ≡ some d)
        × (max_time < 1000 + seconds d)
        × (handle defaults throttling_hub orphan slow_down session
            ≡ (raise overflow, record { committed = queued; current = rolled_back session })))
handle_settles_example =
    handle_settles defaults throttling_hub orphan orphan session queued-IsQueueSound here refl refl
      slow_down

record_skip_keeps_example :
    IsAddedRun
      (unscanned_run nginx (some 1) RunStatus.skipped scan_meta none one_scan)
      one_scan
      (record_skip nginx (some 1) scan_meta one_scan)
    × (pointers (record_skip nginx (some 1) scan_meta one_scan).1.images ≡ pointers one_scan.images)
record_skip_keeps_example = record_skip_keeps nginx (some 1) scan_meta one_scan (tt, tt) here

record_failure_keeps_example :
    IsAddedRun
      (unscanned_run nginx none RunStatus.failed scan_meta
        (some (take 4000 (codes "boom")))
        one_scan)
      one_scan
      (record_failure nginx none scan_meta (codes "boom") false one_scan)
    × (pointers (record_failure nginx none scan_meta (codes "boom") false one_scan).1.images
        ≡ pointers one_scan.images)
record_failure_keeps_example =
    record_failure_keeps nginx none scan_meta (codes "boom") false one_scan (tt, tt) here
