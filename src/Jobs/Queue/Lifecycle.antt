-- ===== src/Jobs/Queue/Lifecycle.antt =====
-- One job from its enqueueing on, under any sequence of the queue's operations (app/jobs/queue.py;
-- "The life of a job" in README.md). An operation that the job's status rules out changes nothing.
use echo_security_scanner.Base.{
  ℕ, ◌+◌, ◌≤◌, ◌<◌, ◌≡◌, ◌⊎◌, Bool, true, false, List, [], ◌∷◌, Text, if◌then◌else◌,
}
use echo_security_scanner.Errors.{ok, raise}
use echo_security_scanner.Domain.Models.{JobStatus, ScanJob, is_pending, is_running, is_failed}
use echo_security_scanner.Jobs.Queue.{
  Clocks, RetryPolicy, leased, complete, fail, defer, reaped, promoted,
}

-- `claims`, `completes`, `fails`, `refuses` and `defers` are a worker's, where `refuses` is the failure
-- for good of a job whose image does not exist; `reaps` the scheduler's, `promotes`
-- the API's.
pub data Event : Type 0 where
  claims : Clocks → ℕ → Event
  completes : Event
  fails : Clocks → Text → Event
  refuses : Clocks → Text → Event
  defers : Clocks → ℕ → Text → Event
  reaps : Event
  promotes : Clocks → Event

-- A job, with how often it was claimed and deferred so far, and whether it failed for good.
pub record Life : Type 0 where
  pub job : ScanJob
  pub claimed : ℕ
  pub postponed : ℕ
  pub refused : Bool

step : RetryPolicy → Life → Event → Life
step p l (claims now lease) =
    if is_pending l.job.status
    then record l { job = leased now lease l.job; claimed = l.claimed + 1 }
    else l
step p l completes = if is_running l.job.status then record l { job = complete l.job } else l
step p l (fails now error) =
    if is_running l.job.status then record l { job = fail now error p l.job } else l
step p l (refuses now error) =
    if is_running l.job.status
    then record l { job = fail now error (record p { max_attempts = 1 }) l.job; refused = true }
    else l
step p l (defers now delay reason) =
    if is_running l.job.status
    then elim (defer now delay reason l.job) [
      | ok job ↦ record l { job = job; postponed = l.postponed + 1 }
      | raise _ ↦ l
    ]
    else l
step p l reaps =
    if is_running l.job.status then record l { job = reaped p.max_attempts l.job } else l
step p l (promotes now) =
    if is_pending l.job.status then record l { job = promoted now l.job } else l

pub live : RetryPolicy → Life → List Event → Life
live p l [] = l
live p l (e ∷ es) = live p (step p l e) es

-- How many claims a job's status stands for that no attempt and no deferral accounts for.
abbrev pub open_claims : JobStatus → ℕ
open_claims JobStatus.pending = 0
open_claims JobStatus.running = 1
open_claims JobStatus.done = 1
open_claims JobStatus.failed = 0

-- The job's accounts: attempts are left until it fails, all are used up when it has failed, unless
-- it failed for good, and
-- each claim ended in a counted attempt, in a deferral, in success, or is still running.
pub record IsAccounted (p : RetryPolicy) (l : Life) : Type 0 where
  pub attempts_left : is_failed l.job.status ≡ false → l.job.attempts < p.max_attempts
  pub attempts_used :
      l.job.status ≡ JobStatus.failed → (l.job.attempts ≡ p.max_attempts) ⊎ (l.refused ≡ true)
  pub refused_failed : l.refused ≡ true → l.job.status ≡ JobStatus.failed
  pub attempts_capped : l.job.attempts ≤ p.max_attempts
  pub claims_paid : l.claimed ≡ l.job.attempts + l.postponed + open_claims l.job.status

-- A job as `enqueue` inserts it.
abbrev pub IsNew : Life → Type 0
IsNew l =
    (l.job.status ≡ JobStatus.pending)
    × (l.job.attempts ≡ 0)
    × (l.claimed ≡ 0)
    × (l.postponed ≡ 0)
    × (l.refused ≡ false)
