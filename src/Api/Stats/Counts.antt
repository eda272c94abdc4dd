-- ===== src/Api/Stats/Counts.antt =====
-- What the counters of the queue and of the runs count (`stats` of app/api/routes/stats.py).
use echo_security_scanner.Base.{
  Bool, true, false, filter_congr, All_always, ℕ, ◌+◌, ◌*◌, ◌-◌, ◌≡◌, refl, ap, ◌∙◌, Bool, List, [],
  ◌∷◌, Text, arith, length, length-map, filter, map, IsEquality, get_count-group_counts,
  sum_counts-group_counts, group_counts, get_count, sum_counts, ◌==◌, if◌then◌else◌,
}
use echo_security_scanner.Domain.Models.{
  Time, seconds, JobStatus, ScanJob, RunStatus, ScanRun, is_pending, is_running, is_failed,
}
use echo_security_scanner.Domain.Database.{Db}
use echo_security_scanner.Api.Schemas.{Stats}
use echo_security_scanner.Api.Stats.{
  Floats, StatsTimes, job_status_eq, run_status_eq, is_recent, queue_stats, run_outcomes, stats,
}

job_status_eq-IsEquality : IsEquality job_status_eq
job_status_eq-IsEquality = record { decides = λ a b. ground arith }

run_status_eq-IsEquality : IsEquality run_status_eq
run_status_eq-IsEquality = record { decides = λ a b. ground arith }

length-filter-map :
    {A B : Type 0} (p : B → Bool) (f : A → B) (xs : List A)
    → length (filter p (map f xs)) ≡ length (filter (λ x. p (f x)) xs)
length-filter-map p f [] = refl
length-filter-map p f (x ∷ xs) = ground (arith, length-filter-map p f xs)

counted :
    {A B : Type 0} (eq : B → B → Bool) (f : A → B) (k : B) (xs : List A)
    → IsEquality eq
    → get_count eq k (group_counts eq (map f xs)) ≡ length (filter (λ x. eq k (f x)) xs)
counted eq f k xs e = get_count-group_counts eq k (map f xs) e ∙ length-filter-map (eq k) f xs

all_statuses :
    (rs : List ScanRun)
    → length (filter (λ r. run_status_eq RunStatus.success r.status) rs)
        + length (filter (λ r. run_status_eq RunStatus.failed r.status) rs)
        + length (filter (λ r. run_status_eq RunStatus.skipped r.status) rs)
      ≡ length rs
all_statuses [] = refl
all_statuses (r ∷ rs) = ground (arith, all_statuses rs)

-- The outcomes of a run, one by one.
abbrev pub is_success : RunStatus → Bool
is_success RunStatus.success = true
is_success _ = false

abbrev pub is_given_up : RunStatus → Bool
is_given_up RunStatus.failed = true
is_given_up _ = false

abbrev pub is_skipped : RunStatus → Bool
is_skipped RunStatus.skipped = true
is_skipped _ = false

-- The counters of an answer.
pub record IsCounted {F : Type 0} (floats : Floats F) (cutoff : Time) (db : Db) (s : Stats F)
    : Type 0 where
  pub pending : s.queue.pending ≡ length (filter (λ j. is_pending j.status) db.jobs)
  pub running : s.queue.running ≡ length (filter (λ j. is_running j.status) db.jobs)
  pub failed : s.queue.failed ≡ length (filter (λ j. is_failed j.status) db.jobs)
  pub success :
      s.runs.success
      ≡ length (filter (λ r. is_success r.status) (filter (is_recent cutoff) db.runs))
  pub gave_up :
      s.runs.failed
      ≡ length (filter (λ r. is_given_up r.status) (filter (is_recent cutoff) db.runs))
  pub skipped :
      s.runs.skipped
      ≡ length (filter (λ r. is_skipped r.status) (filter (is_recent cutoff) db.runs))
  pub whole :
      s.runs.success + s.runs.failed + s.runs.skipped ≡ length (filter (is_recent cutoff) db.runs)
  pub ratio : s.runs.skip_ratio ≡ (
      if length (filter (is_recent cutoff) db.runs) == 0
      then floats.nought
      else floats.ratio s.runs.skipped (length (filter (is_recent cutoff) db.runs)))

counted_as :
    {A B : Type 0} (eq : B → B → Bool) (f : A → B) (k : B) (q : B → Bool) (xs : List A)
    → IsEquality eq
    → ((b : B) → eq k b ≡ q b)
    → get_count eq k (group_counts eq (map f xs)) ≡ length (filter (λ x. q (f x)) xs)
counted_as eq f k q xs e h =
    counted eq f k xs e ∙ ap length (filter_congr _ _ xs (All_always _ (λ x. h (f x)) xs))

-- The counters of the queue and of the runs count what they are named for: the jobs that are pending,
-- running and failed, and of the runs of the window those that succeeded, those that failed and those
-- that were skipped, which together are all of them; the ratio of skips is taken over
-- all of them, and is 0.0 where there is none.
pub stats-IsCounted :
    {F : Type 0} (floats : Floats F) (collate : Text → Text → Bool) (t : StatsTimes)
    (window_hours : ℕ) (db : Db)
    → IsCounted floats
        (t.now - seconds (3600 * window_hours))
        db
        (stats floats collate t window_hours db).1
unfolding stats queue_stats run_outcomes
stats-IsCounted floats collate t window_hours db =
    let cutoff : Time = t.now - seconds (3600 * window_hours) in
    let recent = filter (is_recent cutoff) db.runs in
    let status : ScanRun → RunStatus = λ r. r.status in
    let total : sum_counts (group_counts run_status_eq (map status recent)) ≡ length recent =
      sum_counts-group_counts run_status_eq (map status recent) ∙ length-map status recent in
    record {
      pending =
          counted_as job_status_eq (λ (j : ScanJob). j.status) JobStatus.pending is_pending db.jobs
            job_status_eq-IsEquality (λ b. ground arith);
      running =
          counted_as job_status_eq (λ (j : ScanJob). j.status) JobStatus.running is_running db.jobs
            job_status_eq-IsEquality (λ b. ground arith);
      failed =
          counted_as job_status_eq (λ (j : ScanJob). j.status) JobStatus.failed is_failed db.jobs
            job_status_eq-IsEquality (λ b. ground arith);
      success =
          counted_as run_status_eq status RunStatus.success is_success recent
            run_status_eq-IsEquality (λ b. ground arith);
      gave_up =
          counted_as run_status_eq status RunStatus.failed is_given_up recent
            run_status_eq-IsEquality (λ b. ground arith);
      skipped =
          counted_as run_status_eq status RunStatus.skipped is_skipped recent
            run_status_eq-IsEquality (λ b. ground arith);
      whole = omega (
        arith,
        all_statuses recent,
        counted run_status_eq status RunStatus.success recent run_status_eq-IsEquality,
        counted run_status_eq status RunStatus.failed recent run_status_eq-IsEquality,
        counted run_status_eq status RunStatus.skipped recent run_status_eq-IsEquality,
      );
      ratio =
          ap
            (λ n.
              if n == 0
              then floats.nought
              else floats.ratio
                  (get_count run_status_eq RunStatus.skipped
                    (group_counts run_status_eq (map status recent)))
                  n)
            total;
    }
