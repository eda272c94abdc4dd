-- ===== src/Scheduler.antt =====
-- app/scheduler/scheduler.py: which images are due, the bookkeeping of dead attempts, and a tick.
pub mod Due
pub mod Reaped
pub mod Ticking
pub mod Replicas
use echo_security_scanner.Base.{
  ℕ, ◌+◌, ◌*◌, ◌^◌, min, Bool, not, ◌&&◌, Option, none, some, List, [], ◌∷◌, ◌==◌, leb,
  if◌then◌else◌, filter, any, or_else_nat,
}
use echo_security_scanner.Errors.{ok, Exec, ◌>>=◌, ◌>>◌, pure}
use echo_security_scanner.Domain.Models.{Time, seconds, Image, ScanJob, ScanRun}
use echo_security_scanner.Domain.Database.{Db, Session, get_image, get_job, commit, execute}
use echo_security_scanner.Jobs.Queue.{
  Clocks, ReapedJob, priority_scheduled, lease_expired_error, active_for, enqueue,
  reap_expired_leases,
}
use echo_security_scanner.Config.{Settings}
use echo_security_scanner.Scanner.Persist.{RunMetadata, record_failure, effect}

-- The seconds from a scan to the next one.
unfoldable pub scan_interval : Image → ℕ → ℕ → ℕ
scan_interval image default_interval max_failure_backoff =
    let interval = or_else_nat image.scan_interval_seconds default_interval in
    if image.consecutive_failures == 0
    then interval
    else min (interval * 2 ^ image.consecutive_failures) max_failure_backoff

unfoldable pub next_due_at : Image → ℕ → ℕ → Time
unfolding scan_interval
next_due_at image default_interval max_failure_backoff = elim image.last_scan_at [
  | none ↦ image.created_at
  | some last ↦ last + seconds (scan_interval image default_interval max_failure_backoff)
]

abbrev pub is_due : Time → Settings → List ScanJob → Image → Bool
is_due now settings jobs i =
    i.enabled
    && not (any (active_for i.id) jobs)
    && leb
        (next_due_at i settings.default_scan_interval_seconds settings.max_failure_backoff_seconds)
        now

unfoldable pub due_images : Time → Settings → Db → List Image
due_images now settings db = filter (is_due now settings db.jobs) db.images

abbrev pub dead_attempt : Time → RunMetadata
dead_attempt now = record {
  digest = none;
  trivy_version = none;
  trivy_db_version = none;
  scan_flags_hash = none;
  started_at = now;
  completed_at = now;
}

abbrev pub job_id_of : Option ScanJob → Option ℕ
job_id_of none = none
job_id_of (some j) = some j.id

-- One entry, with the time at which it is recorded.
record_dead : Time → ReapedJob → Exec Db (Unit {0})
record_dead now entry db = elim (get_image entry.image_id db.images) [
  | none ↦ (ok tt, db)
  | some image ↦
      (do
        record_failure image (job_id_of (get_job entry.job_id db.jobs)) (dead_attempt now)
            lease_expired_error entry.exhausted
        pure tt)
        db
]

unfoldable pub record_reaped : (ReapedJob → Time) → List ReapedJob → Exec Db (Unit {0})
unfolding record_dead
record_reaped at [] = pure tt
record_reaped at (entry ∷ rest) = record_dead (at entry) entry >> record_reaped at rest

abbrev pub counted : Option ℕ → ℕ → ℕ
counted none n = n
counted (some _) n = n + 1

-- The loop over the due images; the number of jobs enqueued.
unfoldable pub enqueue_all : (ℕ → Clocks) → List Image → Exec Db ℕ
enqueue_all at [] = pure 0
enqueue_all at (image ∷ rest) = do
  added ← enqueue (at image.id) image.id priority_scheduled none
  n ← enqueue_all at rest
  pure (counted added n)

-- The moments of one tick: of the reap, of each dead attempt's record, of the decision what is due,
-- and of each enqueueing by the image's id.
pub record TickTimes : Type 0 where
  pub reaping : Clocks
  pub recording : ReapedJob → Time
  pub deciding : Time
  pub enqueueing : ℕ → Clocks

abbrev pub reading {ℓ} : {S A : Type ℓ} → (S → A) → Exec S A
reading f s = (ok (f s), s)

unfoldable pub tick : TickTimes → Settings → Exec Session ℕ
tick t settings = do
  reaped ← execute (effect (reap_expired_leases t.reaping settings.max_attempts))
  execute (record_reaped t.recording reaped)
  due ← execute (reading (due_images t.deciding settings))
  enqueued ← execute (enqueue_all t.enqueueing due)
  commit
  pure enqueued
