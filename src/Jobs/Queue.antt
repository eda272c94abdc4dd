-- ===== src/Jobs/Queue.antt =====
-- app/jobs/queue.py: the statements on the `scan_job` table, and the changes to a job object.
-- The theorems are in the modules below.
pub mod Exclusion
pub mod Rows
pub mod Claiming
pub mod Retry
pub mod Reaping
pub mod Lifecycle
pub mod Promotion
pub mod Draining
pub mod Reachable
use echo_security_scanner.Base.{
  ℕ, ◌+◌, ◌*◌, ◌^◌, ◌-◌, min, suc, Bool, not, ◌&&◌, ◌||◌, Option, none, some, List, [], ◌∷◌, ◌++◌,
  map, Text, codes, ◌==◌, ltb, leb, if◌then◌else◌, filter, any, take, or_else, false,
}
use echo_security_scanner.Errors.{
  Exception, Result, integrity_error, other, ok, raise, Exec, ◌>>=◌, pure, throw,
}
use echo_security_scanner.Domain.Models.{
  Time, seconds, max_time, JobStatus, ScanJob, is_pending, is_running, is_failed, is_active,
}
use echo_security_scanner.Domain.Database.{Db, Sequences, flush_job}

-- One moment by three clocks: the process's `_now()`, PostgreSQL's `now()`, which stands at the
-- transaction's start, and its `statement_timestamp()`.
pub record Clocks : Type 0 where
  pub wall : Time
  pub transaction : Time
  pub statement : Time

abbrev pub priority_time_sensitive : ℕ
priority_time_sensitive = 100

abbrev pub priority_scheduled : ℕ
priority_scheduled = 0

abbrev pub lease_expired_error : Text
lease_expired_error = codes "lease expired; worker presumed dead"

pub record ReapedJob : Type 0 where
  pub job_id : ℕ
  pub image_id : ℕ
  pub exhausted : Bool

abbrev pub active_for : ℕ → ScanJob → Bool
active_for image_id j = j.image_id == image_id && is_active j.status

-- The sequence is read before the conflict is found, so it advances in both cases.
advance_job : Sequences → Sequences
advance_job s = record s { next_job = s.next_job + 1 }

-- `build_enqueue_statement`, executed: the id of the inserted row, or none on a conflict.
unfoldable pub enqueue : Clocks → ℕ → ℕ → Option Time → Exec Db (Option ℕ)
unfolding advance_job
enqueue now image_id priority scheduled_for db =
    let db' = record db { seq = advance_job db.seq } in
    if any (active_for image_id) db.jobs
    then (ok none, db')
    else (ok (some db.seq.next_job), record db' { jobs = db.jobs ++ job ∷ [] })
  where
    job : ScanJob
    job = record {
      id = db.seq.next_job;
      image_id = image_id;
      status = JobStatus.pending;
      priority = priority;
      scheduled_for = or_else scheduled_for now.wall;
      lease_until = none;
      attempts = 0;
      last_error = none;
      created_at = now.transaction;
    }

-- The rows that `build_promote_statement` updates, and what it sets.
abbrev pub promotable : ℕ → ScanJob → Bool
promotable image_id j =
    j.image_id == image_id && is_pending j.status && ltb j.priority priority_time_sensitive

abbrev pub promoted : Clocks → ScanJob → ScanJob
promoted now j = record j { priority = priority_time_sensitive; scheduled_for = now.wall }

abbrev pub promote_rows : Clocks → ℕ → List ScanJob → List ScanJob
promote_rows now image_id jobs = map (λ j. if promotable image_id j then promoted now j else j) jobs

-- `scalar_one_or_none()` of the returned ids.
unfoldable pub scalar_one_or_none : List ScanJob → Exec Db (Option ℕ)
scalar_one_or_none [] = pure none
scalar_one_or_none (j ∷ []) = pure (some j.id)
scalar_one_or_none (j ∷ k ∷ rest) = throw (other (codes "MultipleResultsFound") [])

unfoldable pub promote : Clocks → ℕ → Exec Db (Option ℕ)
unfolding scalar_one_or_none
promote now image_id db =
    scalar_one_or_none (filter (promotable image_id) db.jobs)
      (record db { jobs = promote_rows now image_id db.jobs })

-- ORDER BY priority DESC, scheduled_for: `a` goes strictly before `b`.
abbrev pub goes_before : ScanJob → ScanJob → Bool
goes_before a b =
    ltb b.priority a.priority || a.priority == b.priority && ltb a.scheduled_for b.scheduled_for

-- LIMIT 1. Of rows that tie, the first in the table's order.
unfoldable pub first_row : List ScanJob → Option ScanJob
first_row [] = none
first_row (j ∷ rest) = elim (first_row rest) [
  | none ↦ some j
  | some k ↦ if goes_before k j then some k else some j
]

abbrev pub claimable : (ℕ → Bool) → Clocks → ScanJob → Bool
claimable locked now j =
    is_pending j.status && leb j.scheduled_for now.statement && not (locked j.id)

abbrev pub leased : Clocks → ℕ → ScanJob → ScanJob
leased now lease_seconds j = record j {
  status = JobStatus.running;
  lease_until = some (now.wall + seconds lease_seconds);
}

-- `locked` tells the rows that other transactions hold: SKIP LOCKED passes over them.
unfoldable pub claim : (ℕ → Bool) → Clocks → ℕ → Exec Db (Option ScanJob)
unfolding first_row
claim locked now lease_seconds db = elim (first_row (filter (claimable locked now) db.jobs)) [
  | none ↦ (ok none, db)
  | some j ↦
      (flush_job j (leased now lease_seconds j) >>= λ _. pure (some (leased now lease_seconds j)))
        db
]

unfoldable pub complete : ScanJob → ScanJob
complete job = record job { status = JobStatus.done; lease_until = none; last_error = none }

-- The settings that `fail` is called with.
pub record RetryPolicy : Type 0 where
  pub max_attempts : ℕ
  pub backoff_base_seconds : ℕ
  pub backoff_max_seconds : ℕ

-- The delay before the next try, after `attempts` failures.
unfoldable pub backoff_delay : RetryPolicy → ℕ → ℕ
backoff_delay p attempts = min (p.backoff_base_seconds * 2 ^ (attempts - 1)) p.backoff_max_seconds

unfoldable pub fail : Clocks → Text → RetryPolicy → ScanJob → ScanJob
unfolding backoff_delay
fail now error p job =
    let failing = record job {
      attempts = job.attempts + 1;
      last_error = some (take 4000 error);
      lease_until = none;
    } in
    if leb p.max_attempts (job.attempts + 1)
    then record failing { status = JobStatus.failed }
    else record failing {
      status = JobStatus.pending;
      scheduled_for = now.wall + seconds (backoff_delay p (job.attempts + 1));
    }

-- `_now() + timedelta(seconds=n)`: a `datetime` ends with the year 9999.
abbrev pub overflow : Exception
overflow = other (codes "OverflowError") (codes "date value out of range")

abbrev pub deferred : Time → Text → ScanJob → ScanJob
deferred at reason job = record job {
  status = JobStatus.pending;
  lease_until = none;
  last_error = some (take 4000 reason);
  scheduled_for = at;
}

-- Where the moment is out of range, the object's changes are never flushed.
unfoldable pub defer : Clocks → ℕ → Text → ScanJob → Result ScanJob
defer now delay_seconds reason job =
    if leb (now.wall + seconds delay_seconds) max_time
    then ok (deferred (now.wall + seconds delay_seconds) reason job)
    else raise overflow

-- A NULL lease is never below the timestamp.
abbrev pub lease_expired : Time → Option Time → Bool
lease_expired t none = false
lease_expired t (some lease) = ltb lease t

abbrev pub expired : Clocks → ScanJob → Bool
expired now j = is_running j.status && lease_expired now.statement j.lease_until

abbrev pub reaped : ℕ → ScanJob → ScanJob
reaped max_attempts j = record j {
  status = if leb max_attempts (j.attempts + 1) then JobStatus.failed else JobStatus.pending;
  lease_until = none;
  attempts = j.attempts + 1;
  last_error = some lease_expired_error;
}

abbrev pub reap_rows : Clocks → ℕ → List ScanJob → List ScanJob
reap_rows now max_attempts jobs = map (λ j. if expired now j then reaped max_attempts j else j) jobs

abbrev pub reaped_job : ScanJob → ReapedJob
reaped_job j = record { job_id = j.id; image_id = j.image_id; exhausted = is_failed j.status }

unfoldable pub reap_expired_leases : Clocks → ℕ → Db → List ReapedJob × Db
reap_expired_leases now max_attempts db = (
  map (λ j. reaped_job (reaped max_attempts j)) (filter (expired now) db.jobs),
  record db { jobs = reap_rows now max_attempts db.jobs },
)
