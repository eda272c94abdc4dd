-- ===== src/Scanner/Worker.antt =====
-- app/scanner/worker.py: one job is claimed, executed and settled. What the registry and Trivy
-- answer is an argument; logging is left out.
pub mod Unchanged
pub mod Settling
pub mod Atomic
pub mod Once
use echo_security_scanner.Base.{
  ℕ, Bool, true, false, ◌&&◌, Option, none, some, List, [], ◌∷◌, Text, text_eq, ◌==◌, ltb,
  if◌then◌else◌, filter, or_else_nat,
}
use echo_security_scanner.Errors.{
  Exception, image_not_found, rate_limited, trivy_rate_limited, stale_data, Result, ok, raise, Exec,
  ◌>>=◌, ◌>>◌, pure, throw, describe,
}
use echo_security_scanner.Config.{Settings, retry_policy}
use echo_security_scanner.Domain.Models.{
  Time, RunStatus, Image, ScanJob, ScanRun, is_failed, reference,
}
use echo_security_scanner.Domain.Database.{
  Db, Session, get_image, get_job, option_eq, run_status_eq, flush_job, commit, rollback, execute,
}
use echo_security_scanner.Jobs.Queue.{Clocks, claim, complete, fail, defer}
use echo_security_scanner.Registry.Reference.{ImageReference, parse_reference}
use echo_security_scanner.Scanner.Parser.{ParsedReport}
use echo_security_scanner.Scanner.Persist.{RunMetadata, record_success, record_skip, record_failure}

abbrev pub default_defer_seconds : ℕ
default_defer_seconds = 300

-- What one job meets outside: the answers of Trivy's probe, of the registry and of the scan, with
-- the report as `parse_report` reads it, and the moments of its `_now()` calls.
pub record Surroundings : Type 0 where
  pub probe_versions : Result (Text × Text)
  pub scan_flags_hash : Text
  pub resolve_digest : ImageReference → Result Text
  pub run_scan : Text → Result Text
  pub parse_report : Text → Result ParsedReport
  pub started_at : Time
  pub completed_at : Time
  pub settling : Clocks
  pub failed_at : Time

-- ORDER BY completed_at DESC LIMIT 1. Of rows that tie, the first in the table's order.
unfoldable pub latest : List ScanRun → Option ScanRun
latest [] = none
latest (r ∷ rest) = elim (latest rest) [
  | none ↦ some r
  | some s ↦ if ltb r.completed_at s.completed_at then some s else some r
]

abbrev pub is_success_of : ℕ → ScanRun → Bool
is_success_of image_id r = r.image_id == image_id && run_status_eq r.status RunStatus.success

unfoldable pub last_successful_run : ℕ → List ScanRun → Option ScanRun
unfolding latest
last_successful_run image_id runs = latest (filter (is_success_of image_id) runs)

unfoldable pub is_unchanged : Option ScanRun → Text → Text → Text → Text → Bool
is_unchanged none digest trivy_version db_version flags_hash = false
is_unchanged (some previous) digest trivy_version db_version flags_hash =
    option_eq text_eq previous.digest (some digest)
    && option_eq text_eq previous.trivy_version (some trivy_version)
    && option_eq text_eq previous.trivy_db_version (some db_version)
    && option_eq text_eq previous.scan_flags_hash (some flags_hash)

-- The state with an answer from outside: its value, or its exception.
abbrev pub lift {ℓ} : {S A : Type ℓ} → Result A → Exec S A
lift r s = (r, s)

abbrev pub meta : Surroundings → Text → Text → Option Text → RunMetadata
meta w trivy_version db_version digest = record {
  digest = digest;
  trivy_version = some trivy_version;
  trivy_db_version = some db_version;
  scan_flags_hash = some w.scan_flags_hash;
  started_at = w.started_at;
  completed_at = w.completed_at;
}

-- `queue.complete` and the commit that flushes it.
unfoldable pub finish : ScanJob → Exec Session (Unit {0})
unfolding complete
finish job = execute (flush_job job (complete job)) >> commit

-- `report.digest or digest`: an empty text is falsy.
abbrev pub or_else_text : Option Text → Text → Text
or_else_text none d = d
or_else_text (some []) d = d
or_else_text (some (c ∷ cs)) d = c ∷ cs

-- The part after the digest is known.
unfoldable pub scan_or_skip :
    Surroundings → ScanJob → Image → Option ScanRun → Text → Text → Text → Exec Session (Unit {0})
unfolding is_unchanged finish
scan_or_skip w job image previous trivy_version db_version digest =
    if is_unchanged previous digest trivy_version db_version w.scan_flags_hash
    then (do
      execute (record_skip image (some job.id) (meta w trivy_version db_version (some digest)))
      finish job)
    else (do
      raw ← lift (w.run_scan (reference image))
      report ← lift (w.parse_report raw)
      execute (
          record_success image (some job.id) report
            (meta w trivy_version db_version (some (or_else_text report.digest digest))))
      finish job)

execute_image : Surroundings → ScanJob → Image → Exec Session (Unit {0})
unfolding scan_or_skip last_successful_run
execute_image w job image s =
    (do
      versions ← lift w.probe_versions
      commit
      digest ← lift (w.resolve_digest (parse_reference image.name image.tag))
      scan_or_skip w job image (last_successful_run image.id s.current.runs) versions.0 versions.1
          digest)
      s

-- `_execute`
unfoldable pub execute_job : Surroundings → ScanJob → Exec Session (Unit {0})
unfolding execute_image
execute_job w job s = elim (get_image job.image_id s.current.images) [
  | none ↦ finish job s
  | some image ↦ execute_image w job image s
]

-- After a rollback the job object holds nothing, and the next use of it reads its row again.
abbrev pub reloaded : ScanJob → Exec Session ScanJob
reloaded job s = elim (get_job job.id s.current.jobs) [
  | none ↦ (raise stale_data, s)
  | some row ↦ (ok row, s)
]

unfoldable pub defer_for_backpressure :
    Surroundings → ScanJob → Exception → Option ℕ → Exec Session (Unit {0})
defer_for_backpressure w job error retry_after = do
  rollback
  row ← reloaded job
  waiting ←
      lift (defer w.settling (or_else_nat retry_after default_defer_seconds) (describe error) row)
  execute (flush_job row waiting)
  commit

abbrev pub unscanned_meta : Time → RunMetadata
unscanned_meta now = record {
  digest = none;
  trivy_version = none;
  trivy_db_version = none;
  scan_flags_hash = none;
  started_at = now;
  completed_at = now;
}

-- The run of a failed attempt, if the image is there.
record_attempt : Surroundings → ScanJob → Text → Exec Session (Unit {0})
record_attempt w failing message s = elim (get_image failing.image_id s.current.images) [
  | none ↦ (ok tt, s)
  | some image ↦
      (do
        execute (
            record_failure image (some failing.id) (unscanned_meta w.failed_at) message
              (is_failed failing.status))
        pure tt)
        s
]

-- `_record_failure`
unfoldable pub record_job_failure :
    Settings → Surroundings → ScanJob → Exception → Bool → Exec Session (Unit {0})
unfolding record_attempt
record_job_failure settings w job error permanent = do
  rollback
  row ← reloaded job
  let failing =
      fail w.settling (describe error)
        (retry_policy settings (if permanent then 1 else settings.max_attempts)) row
  execute (flush_job row failing)
  record_attempt w failing (describe error)
  commit

-- The `except` clauses of `run_once`, in their order.
unfoldable pub handle : Settings → Surroundings → ScanJob → Exception → Exec Session (Unit {0})
unfolding record_job_failure defer_for_backpressure
handle settings w job (image_not_found m) =
    record_job_failure settings w job (image_not_found m) true
handle settings w job (rate_limited m retry_after) =
    defer_for_backpressure w job (rate_limited m retry_after) retry_after
handle settings w job (trivy_rate_limited m) =
    defer_for_backpressure w job (trivy_rate_limited m) none
handle settings w job error = record_job_failure settings w job error false

-- `try: … except …:`
unfoldable pub attempt : Settings → Surroundings → ScanJob → Exec Session (Unit {0})
unfolding execute_job handle
attempt settings w job s = let (r, s') = execute_job w job s in caught r s'
  where
    caught : Result (Unit {0}) → Exec Session (Unit {0})
    caught (ok _) = pure tt
    caught (raise e) = handle settings w job e

settle : Settings → Surroundings → Option ScanJob → Exec Session Bool
unfolding attempt
settle settings w none = pure false
settle settings w (some job) = do attempt settings w job; pure true

unfoldable pub run_once : (ℕ → Bool) → Clocks → Settings → Surroundings → Exec Session Bool
unfolding settle
run_once locked now settings w = do
  job ← execute (claim locked now settings.lease_seconds)
  commit
  settle settings w job

-- One round of `main`: an exception that comes out of `run_once` is rolled back.
unfoldable pub round : (ℕ → Bool) → Clocks → Settings → Surroundings → Session → Bool × Session
unfolding run_once
round locked now settings w s = let (r, s') = run_once locked now settings w s in ended r s'
  where
    ended : Result Bool → Session → Bool × Session
    ended (ok did_work) s = (did_work, s)
    ended (raise _) s = (false, (rollback s).1)
