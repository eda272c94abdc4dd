-- ===== src/Scanner/Worker/Settling.antt =====
-- What the worker leaves behind when a job raises (`_defer_for_backpressure`, `_record_failure` and
-- the `except` clauses of `run_once` in app/scanner/worker.py).
use echo_security_scanner.Base.{
  ℕ, zero, suc, ◌<◌, ◌⊎◌, take, Bool-cases, ◌+◌, leb, ◌≡◌, refl, ap, ◌∙◌, Bool, true, false, Option,
  none, some, Text, ◌==◌, ==_iff, arith, or_else_nat, if◌then◌else◌, In, Option-cases, inl, inr,
  find?-In,
}
use echo_security_scanner.Errors.{
  Exception, image_not_found, rate_limited, registry_error, trivy_error, trivy_timeout,
  trivy_rate_limited, trivy_report_error, integrity_error, stale_data, other, Result, ok, raise,
  describe,
}
use echo_security_scanner.Config.{Settings, retry_policy}
use echo_security_scanner.Domain.Models.{
  Time, seconds, max_time, JobStatus, ScanJob, is_active, is_failed,
}
use echo_security_scanner.Domain.Database.{
  Db, Session, get_image, get_job, put_job, commit, rollback,
}
use echo_security_scanner.Jobs.Queue.{Clocks, RetryPolicy, fail, defer, deferred, overflow}
use echo_security_scanner.Jobs.Queue.Exclusion.{IsQueueSound}
use echo_security_scanner.Jobs.Queue.Rows.{SameKey, flush_job_lem, get_job_unique}
use echo_security_scanner.Scanner.Worker.{
  Surroundings, default_defer_seconds, unscanned_meta, record_attempt, record_job_failure,
  defer_for_backpressure, handle,
}
use echo_security_scanner.Scanner.Persist.Unscanned.{record_failure-IsAddedRun}

-- The database after a rollback.
abbrev pub rolled_back : Session → Db
rolled_back s = record s.committed { seq = s.current.seq }

-- The answer and the session after an exception was handled: nothing is raised, everything is
-- committed, the job's row is `row`, and of the other tables only images and runs may differ.
pub record IsSettled (row : ScanJob) (before : Session) (out : Result (Unit {0}) × Session)
    : Type 0 where
  pub returned : out.0 ≡ ok tt
  pub all_committed : out.1.committed ≡ out.1.current
  pub jobs : out.1.committed.jobs ≡ put_job row before.committed.jobs
  pub findings : out.1.committed.findings ≡ before.committed.findings
  pub cves : out.1.committed.cves ≡ before.committed.cves
  pub packages : out.1.committed.packages ≡ before.committed.packages

defer_in_range :
    (now : Clocks) (n : ℕ) (reason : Text) (j : ScanJob)
    → leb (now.wall + seconds n) max_time ≡ true
    → defer now n reason j ≡ ok (deferred (now.wall + seconds n) reason j)
unfolding defer
defer_in_range now n reason j h = rw h refl

defer_out_of_range :
    (now : Clocks) (n : ℕ) (reason : Text) (j : ScanJob)
    → leb (now.wall + seconds n) max_time ≡ false
    → defer now n reason j ≡ raise overflow
unfolding defer
defer_out_of_range now n reason j h = rw h refl

deferred-SameKey : (at : Time) (reason : Text) (j : ScanJob) → SameKey j (deferred at reason j)
deferred-SameKey at reason j = record {
  id = refl;
  image_id = refl;
  priority = refl;
  created_at = refl;
}

fail-SameKey :
    (now : Clocks) (error : Text) (p : RetryPolicy) (j : ScanJob) → SameKey j (fail now error p j)
unfolding fail
fail-SameKey now error p j = ground arith

-- The seconds that an exception asks to wait: a throttling registry's Retry-After, and five minutes
-- where it gives none, or 0.
abbrev pub asked_wait : Exception → Option ℕ
asked_wait (rate_limited _ (some (suc n))) = some (suc n)
asked_wait (rate_limited _ _) = some 300
asked_wait (trivy_rate_limited _) = some 300
asked_wait _ = none

-- What an exception costs the job: where a registry throttles, the time that it asks for and no
-- attempt; everything where the image does not exist; and else one attempt of `max_attempts`.
abbrev pub IsCost : ℕ → Time → ScanJob → Exception → ScanJob → Type 0
IsCost m now old (rate_limited t a) new =
    (new.status ≡ JobStatus.pending)
    × (new.attempts ≡ old.attempts)
    × ((d : ℕ) × (asked_wait (rate_limited t a) ≡ some d) × (new.scheduled_for ≡ now + seconds d))
IsCost m now old (trivy_rate_limited t) new =
    (new.status ≡ JobStatus.pending)
    × (new.attempts ≡ old.attempts)
    × (new.scheduled_for ≡ now + seconds 300)
IsCost m now old (image_not_found _) new = new.status ≡ JobStatus.failed
IsCost m now old _ new =
    (new.attempts ≡ old.attempts + 1)
    × (new.status ≡ (if leb m (old.attempts + 1) then JobStatus.failed else JobStatus.pending))

-- The row of a job after an exception at the time `now`: the same job, leased to nobody, with the
-- message, and with its cost.
pub record IsCharged (m : ℕ) (now : Time) (old : ScanJob) (e : Exception) (new : ScanJob)
    : Type 0 where
  pub key : SameKey old new
  pub idle : new.lease_until ≡ none
  pub message : new.last_error ≡ some (take 4000 (describe e))
  pub cost : IsCost m now old e new

module _ (settings : Settings) (w : Surroundings) (job row : ScanJob) (s : Session)
    (sound : IsQueueSound (rolled_back s)) (there : In row s.committed.jobs)
    (same : row.id ≡ job.id) (active : is_active row.status ≡ true) where
  found : get_job job.id s.committed.jobs ≡ some row
  found = rw (← same) (get_job_unique row s.committed.jobs there (sound.keyed row.id))

  -- The wait that `_defer_for_backpressure` adds.
  abbrev wait_of : Option ℕ → ℕ
  wait_of retry_after = or_else_nat retry_after default_defer_seconds

  deferred_row : Exception → Option ℕ → ScanJob
  deferred_row e retry_after =
      deferred (w.settling.wall + seconds (wait_of retry_after)) (describe e) row

  deferred-IsSettled :
      (e : Exception) (retry_after : Option ℕ)
      → leb (w.settling.wall + seconds (wait_of retry_after)) max_time ≡ true
      → IsSettled (deferred_row e retry_after) s (defer_for_backpressure w job e retry_after s)
  unfolding defer_for_backpressure rollback commit deferred_row
  deferred-IsSettled e retry_after h =
      let later = defer_in_range w.settling (wait_of retry_after) (describe e) row h in
      let flushed =
        flush_job_lem row (deferred_row e retry_after) (rolled_back s) sound there
          (deferred-SameKey _ (describe e) row) active in
      record {
        returned = rw (found, later, flushed) refl;
        all_committed = rw (found, later, flushed) refl;
        jobs = rw (found, later, flushed) refl;
        findings = rw (found, later, flushed) refl;
        cves = rw (found, later, flushed) refl;
        packages = rw (found, later, flushed) refl;
      }

  -- A wait beyond the year 9999 raises.
  deferred_overflow :
      (e : Exception) (retry_after : Option ℕ)
      → leb (w.settling.wall + seconds (wait_of retry_after)) max_time ≡ false
      → defer_for_backpressure w job e retry_after s
        ≡ (raise overflow, record { committed = s.committed; current = rolled_back s })
  unfolding defer_for_backpressure rollback
  deferred_overflow e retry_after h =
      rw (found, defer_out_of_range w.settling (wait_of retry_after) (describe e) row h) refl

  failing_row : Bool → Exception → ScanJob
  failing_row permanent e =
      fail w.settling (describe e)
        (retry_policy settings (if permanent then 1 else settings.max_attempts)) row

  recorded :
      (failing : ScanJob) (message : Text) (t : Session)
      → let out = record_attempt w failing message t in
        (out.0 ≡ ok tt)
        × (out.1.current.jobs ≡ t.current.jobs)
        × (out.1.current.findings ≡ t.current.findings)
        × (out.1.current.cves ≡ t.current.cves)
        × (out.1.current.packages ≡ t.current.packages)
  unfolding record_attempt
  recorded failing message t = elim (Option-cases (get_image failing.image_id t.current.images)) [
    | inl e ↦ rw (e, record_attempt) (refl, refl, refl, refl, refl)
    | inr (image, e) ↦
        let at = find?-In (λ i. i.id == failing.image_id) t.current.images image e in
        let own : get_image image.id t.current.images ≡ some image =
          ap (λ k. get_image k t.current.images) ((==_iff image.id failing.image_id).0 at.1) ∙ e in
        let added =
          record_failure-IsAddedRun image (some failing.id) (unscanned_meta w.failed_at) t.current
            message (is_failed failing.status) image own in
        rw (e, record_attempt, added.returned)
          (refl, added.jobs, added.findings, added.cves, added.packages)
  ]

  failed-IsSettled :
      (e : Exception) (permanent : Bool)
      → IsSettled (failing_row permanent e) s (record_job_failure settings w job e permanent s)
  unfolding record_job_failure rollback commit failing_row
  failed-IsSettled e permanent =
      let flushed =
        flush_job_lem row (failing_row permanent e) (rolled_back s) sound there
          (fail-SameKey w.settling _ _ row) active in
      let (r, j, f, c, p) = recorded (failing_row permanent e) (describe e) (record s {
        current = record (rolled_back s) {
          jobs = put_job (failing_row permanent e) s.committed.jobs;
        };
      }) in
      record {
        returned = rw (found, flushed, r) refl;
        all_committed = rw (found, flushed, r) refl;
        jobs = rw (found, flushed, r) j;
        findings = rw (found, flushed, r) f;
        cves = rw (found, flushed, r) c;
        packages = rw (found, flushed, r) p;
      }

  -- The exception was settled; or it asked for a wait beyond the year 9999, and that raised.
  abbrev pub IsHandled : Exception → Type 0
  IsHandled e =
      ((new : ScanJob) × IsCharged settings.max_attempts w.settling.wall row e new
        × IsSettled new s (handle settings w job e s))
      ⊎ ((d : ℕ) × (asked_wait e ≡ some d)
          × (max_time < w.settling.wall + seconds d)
          × (handle settings w job e s
              ≡ (raise overflow, record { committed = s.committed; current = rolled_back s })))

  deferred-IsHandled :
      (e : Exception) (retry_after : Option ℕ)
      → handle settings w job e s ≡ defer_for_backpressure w job e retry_after s
      → asked_wait e ≡ some (wait_of retry_after)
      → IsCost settings.max_attempts w.settling.wall row e (deferred_row e retry_after)
      → IsHandled e
  unfolding deferred_row
  deferred-IsHandled e retry_after same asked cost =
      elim (Bool-cases (leb (w.settling.wall + seconds (wait_of retry_after)) max_time)) [
        | inl h ↦ inl (
          deferred_row e retry_after,
          record {
            key = deferred-SameKey _ (describe e) row;
            idle = refl;
            message = refl;
            cost = cost;
          },
          rw same (deferred-IsSettled e retry_after h),
        )
        | inr h ↦
            inr (wait_of retry_after, asked, ground arith, same ∙ deferred_overflow e retry_after h)
      ]

  failed-IsHandled :
      (e : Exception) (permanent : Bool)
      → handle settings w job e s ≡ record_job_failure settings w job e permanent s
      → IsCost settings.max_attempts w.settling.wall row e (failing_row permanent e)
      → IsHandled e
  unfolding failing_row fail
  failed-IsHandled e permanent same cost = inl (
    failing_row permanent e,
    record {
      key = fail-SameKey w.settling _ _ row;
      idle = ground arith;
      message = ground arith;
      cost = cost;
    },
    rw same (failed-IsSettled e permanent),
  )

  -- From a queue that is sound once the transaction is rolled back, with the job's row there and
  -- active: whatever exception came out of the job, handling it raises nothing and leaves nothing
  -- uncommitted. That job's row alone changes in the queue: it is leased to nobody and holds the
  -- message. A throttling registry, also through Trivy, puts it back for the time that it asks, or
  -- five minutes, with its attempts uncounted; a missing image fails it for good; anything else counts
  -- one attempt, and fails it where that is the last. Findings, CVEs and packages stay as they were
  -- committed. Only a wait that leads beyond the year 9999 raises, an OverflowError, and then nothing
  -- is committed.
  pub handle_settles : (e : Exception) → IsHandled e
  unfolding handle failing_row fail deferred_row
  handle_settles (image_not_found m) = failed-IsHandled (image_not_found m) true refl (ground arith)
  handle_settles (rate_limited m none) =
      deferred-IsHandled (rate_limited m none) none refl refl (refl, refl, (300, refl, refl))
  handle_settles (rate_limited m (some zero)) =
      deferred-IsHandled (rate_limited m (some zero)) (some zero) refl refl
        (refl, refl, (300, refl, refl))
  handle_settles (rate_limited m (some (suc n))) =
      deferred-IsHandled (rate_limited m (some (suc n))) (some (suc n)) refl (ground arith)
        (refl, refl, (suc n, refl, ground arith))
  handle_settles (registry_error m) = failed-IsHandled (registry_error m) false refl (ground arith)
  handle_settles (trivy_error m) = failed-IsHandled (trivy_error m) false refl (ground arith)
  handle_settles (trivy_timeout m) = failed-IsHandled (trivy_timeout m) false refl (ground arith)
  handle_settles (trivy_rate_limited m) =
      deferred-IsHandled (trivy_rate_limited m) none refl refl (refl, refl, refl)
  handle_settles (trivy_report_error m) =
      failed-IsHandled (trivy_report_error m) false refl (ground arith)
  handle_settles (integrity_error m) =
      failed-IsHandled (integrity_error m) false refl (ground arith)
  handle_settles stale_data = failed-IsHandled stale_data false refl (ground arith)
  handle_settles (other n m) = failed-IsHandled (other n m) false refl (ground arith)
