-- ===== src/Api/Stats.antt =====
-- `stats` of app/api/routes/stats.py. `F` is Python's `float`; `collate` is the database's order of
-- texts.
pub mod Counts
pub mod Failures
pub mod Agreement
use echo_security_scanner.Base.{
  ℕ, suc, ◌+◌, ◌-◌, ◌*◌, min, max, Bool, true, false, ◌&&◌, ◌||◌, Option, none, some, List, [], ◌∷◌,
  ◌++◌, Text, codes, starts_with, text_eq, is_none, not, ◌==◌, ltb, leb, if◌then◌else◌, length,
  take, filter, filter_map, map, find?, order_by, group_counts, get_count, sum_counts,
}
use echo_security_scanner.Base.Float.{ℤ, pos, negsuc}
use echo_security_scanner.Domain.Models.{
  Time, seconds, Image, JobStatus, ScanJob, RunStatus, ScanRun, FindingCounts, is_pending,
}
use echo_security_scanner.Domain.Database.{Db, option_eq}
use echo_security_scanner.Api.Schemas.{
  SeverityCounts, no_counts, QueueStats, ImageStats, RunOutcomes, DurationStats, FailureReason,
  Stats,
}
use echo_security_scanner.Api.Images.{counts_of}

-- `FAILURE_REASON_LIMIT`
abbrev pub failure_reason_limit : ℕ
failure_reason_limit = 10

-- The floating-point steps: the age of a job in seconds to one decimal, a quotient to three, 0.0, the
-- database's percentile, in per cent, and `int`.
pub record Floats (F : Type 0) : Type 0 where
  pub age : Time → F
  pub ratio : ℕ → ℕ → F
  pub nought : F
  pub percentile_cont : ℕ → List ℤ → Option F
  pub truncated : F → ℤ

-- The statuses in their columns.
abbrev pub job_status_eq : JobStatus → JobStatus → Bool
job_status_eq JobStatus.pending JobStatus.pending = true
job_status_eq JobStatus.running JobStatus.running = true
job_status_eq JobStatus.done JobStatus.done = true
job_status_eq JobStatus.failed JobStatus.failed = true
job_status_eq _ _ = false

abbrev pub run_status_eq : RunStatus → RunStatus → Bool
run_status_eq RunStatus.success RunStatus.success = true
run_status_eq RunStatus.failed RunStatus.failed = true
run_status_eq RunStatus.skipped RunStatus.skipped = true
run_status_eq _ _ = false

-- MIN of the moments.
unfoldable pub earliest : List Time → Option Time
earliest [] = none
earliest (t ∷ rest) = elim (earliest rest) [ none ↦ some t | some u ↦ some (min t u) ]

-- The age of the oldest job that is due and pending.
unfoldable pub oldest_pending : Time → List ScanJob → Option Time
unfolding earliest
oldest_pending statement jobs =
    elim (earliest (
      map (λ (j : ScanJob). j.scheduled_for)
        (filter (λ j. is_pending j.status && leb j.scheduled_for statement) jobs))) [
          | none ↦ none
          | some t ↦ some (statement - t)
        ]

abbrev pub map_option : {A B : Type 0} → (A → B) → Option A → Option B
map_option f none = none
map_option f (some a) = some (f a)

unfoldable pub queue_stats : {F : Type 0} → Floats F → Time → List ScanJob → QueueStats F
unfolding oldest_pending
queue_stats floats statement jobs =
    let counts = group_counts job_status_eq (map (λ (j : ScanJob). j.status) jobs) in
    record {
      pending = get_count job_status_eq JobStatus.pending counts;
      running = get_count job_status_eq JobStatus.running counts;
      failed = get_count job_status_eq JobStatus.failed counts;
      oldest_pending_age_seconds = map_option floats.age (oldest_pending statement jobs);
    }

abbrev pub image_stats : List Image → ImageStats
image_stats images = record {
  total = length images;
  enabled = length (filter (λ i. i.enabled) images);
  never_scanned = length (filter (λ i. is_none i.last_scan_at) images);
  failing = length (filter (λ i. ltb 0 i.consecutive_failures) images);
}

-- The runs of the window.
abbrev pub is_recent : Time → ScanRun → Bool
is_recent cutoff r = leb cutoff r.completed_at

unfoldable pub run_outcomes : {F : Type 0} → Floats F → Time → List ScanRun → RunOutcomes F
run_outcomes floats cutoff runs =
    let counts =
      group_counts run_status_eq
        (map (λ (r : ScanRun). r.status) (filter (is_recent cutoff) runs)) in
    let attempts = sum_counts counts in
    let skipped = get_count run_status_eq RunStatus.skipped counts in
    record {
      success = get_count run_status_eq RunStatus.success counts;
      failed = get_count run_status_eq RunStatus.failed counts;
      skipped = skipped;
      skip_ratio = if attempts == 0 then floats.nought else floats.ratio skipped attempts;
    }

abbrev pub max_int : ℤ → ℤ → ℤ
max_int (pos a) (pos b) = pos (max a b)
max_int (pos a) (negsuc b) = pos a
max_int (negsuc a) (pos b) = pos b
max_int (negsuc a) (negsuc b) = negsuc (min a b)

unfoldable pub longest : List ℤ → Option ℤ
longest [] = none
longest (d ∷ rest) = elim (longest rest) [ none ↦ some d | some e ↦ some (max_int d e) ]

-- The durations of the successful runs of the window.
abbrev pub durations : Time → List ScanRun → List ℤ
durations cutoff runs =
    map (λ (r : ScanRun). r.duration_ms)
      (filter (λ r. run_status_eq r.status RunStatus.success && is_recent cutoff r) runs)

unfoldable pub duration_stats : {F : Type 0} → Floats F → Time → List ScanRun → DurationStats
unfolding longest
duration_stats floats cutoff runs =
    let taken = durations cutoff runs in
    record {
      count = length taken;
      p50 = map_option floats.truncated (floats.percentile_cont 50 taken);
      p95 = map_option floats.truncated (floats.percentile_cont 95 taken);
      max = longest taken;
    }

-- `split_part(error, ': ', 1)`: what stands before the first `: `, or all of it.
abbrev pub split_reason : Text → Text
split_reason [] = []
split_reason (c ∷ rest) =
    let later = split_reason rest in if starts_with (codes ": ") (c ∷ rest) then [] else c ∷ later

abbrev pub is_recent_failure : Time → ScanRun → Bool
is_recent_failure cutoff r =
    run_status_eq r.status RunStatus.failed && is_recent cutoff r && not (is_none r.error)

-- The reasons of the failed runs of the window.
abbrev pub failure_reasons : Time → List ScanRun → List Text
failure_reasons cutoff runs =
    filter_map (λ r. map_option split_reason r.error) (filter (is_recent_failure cutoff) runs)

-- ORDER BY count DESC, reason.
abbrev pub reason_before : (Text → Text → Bool) → Text × ℕ → Text × ℕ → Bool
reason_before collate a b = ltb b.1 a.1 || a.1 == b.1 && collate a.0 b.0

unfoldable pub recent_failures : (Text → Text → Bool) → Time → List ScanRun → List FailureReason
recent_failures collate cutoff runs =
    map (λ (g : Text × ℕ). record { reason = g.0; count = g.1 })
      (take failure_reason_limit
        (order_by (reason_before collate) (group_counts text_eq (failure_reasons cutoff runs))))

abbrev pub add_counts : SeverityCounts → SeverityCounts → SeverityCounts
add_counts a b = record {
  critical = a.critical + b.critical;
  high = a.high + b.high;
  medium = a.medium + b.medium;
  low = a.low + b.low;
  unknown = a.unknown + b.unknown;
}

-- COALESCE(SUM(...), 0) of each column over the runs.
unfoldable pub sum_findings : List ScanRun → SeverityCounts
sum_findings [] = no_counts
sum_findings (r ∷ rest) = add_counts (counts_of r.finding_counts) (sum_findings rest)

abbrev pub append_all : {A : Type 0} → List (List A) → List A
append_all [] = []
append_all (xs ∷ rest) = xs ++ append_all rest

-- The join of the runs with the images that point to them.
abbrev pub current_runs : Db → List ScanRun
current_runs db =
    append_all
      (map (λ i. filter (λ r. option_eq ◌==◌ i.current_scan_run_id (some r.id)) db.runs) db.images)

-- The moments of a request: `datetime.now` at its start and at its end, and the statement's.
pub record StatsTimes : Type 0 where
  pub now : Time
  pub statement : Time
  pub generated : Time

unfoldable pub stats :
    {F : Type 0} → Floats F → (Text → Text → Bool) → StatsTimes → ℕ → Db → Text × Stats F
unfolding queue_stats run_outcomes duration_stats recent_failures sum_findings
stats floats collate t window_hours db =
    let cutoff = t.now - seconds (3600 * window_hours) in
    (
      codes "no-store",
      record {
        generated_at = t.generated;
        window_hours = window_hours;
        queue = queue_stats floats t.statement db.jobs;
        images = image_stats db.images;
        runs = run_outcomes floats cutoff db.runs;
        scan_duration_ms = duration_stats floats cutoff db.runs;
        recent_failures = recent_failures collate cutoff db.runs;
        findings = sum_findings (current_runs db);
      },
    )
