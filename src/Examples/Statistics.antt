-- ===== src/Examples/Statistics.antt =====
-- The statistics at the data of the other examples (app/api/routes/stats.py).
use echo_security_scanner.Base.{
  ℕ, ◌-◌, ◌*◌, ◌≤◌, ◌≡◌, ◌⊎◌, refl, none, some, [], ◌∷◌, codes, arith, length, All, In, text_eq,
}
use echo_security_scanner.Base.Float.{pos}
use echo_security_scanner.Domain.Models.{seconds, RunStatus, ScanRun}
use echo_security_scanner.Scanner.Upsert.{text_lt}
use echo_security_scanner.Api.Schemas.{FailureReason}
use echo_security_scanner.Api.Freshness.{epoch}
use echo_security_scanner.Api.Stats.{Floats, StatsTimes, stats, recent_failures, split_reason}
use echo_security_scanner.Api.Stats.Counts.{IsCounted, stats-IsCounted}
use echo_security_scanner.Api.Stats.Failures.{IsReport, failures_for, recent_failures_exact}
use echo_security_scanner.Api.Stats.Agreement.{sum_summaries, walked_images, stats_agrees}
use echo_security_scanner.Examples.Listings.{
  first_run, listed_db, listed_db-IsPointing, text_lt-IsComparison,
}
use echo_security_scanner.Examples.Settled.{defaults}

-- Numbers of thousandths.
abbrev thousandths : Floats ℕ
thousandths = record {
  age = λ t. t;
  ratio = λ a b. 1000 * a;
  nought = 0;
  percentile_cont = λ p ds. none;
  truncated = λ x. pos x;
}

abbrev soon : StatsTimes
soon = record { now = epoch; statement = epoch; generated = epoch }

stats-IsCounted_example :
    IsCounted thousandths
      (epoch - seconds (3600 * 24))
      listed_db
      (stats thousandths text_lt soon 24 listed_db).1
stats-IsCounted_example = stats-IsCounted thousandths text_lt soon 24 listed_db

stats_agrees_example :
    (stats thousandths text_lt soon 24 listed_db).1.findings
    ≡ sum_summaries (walked_images text_lt defaults listed_db 10 2 0)
stats_agrees_example =
    stats_agrees thousandths text_lt soon 24 defaults listed_db 10 2 listed_db-IsPointing
      (omega arith)

abbrev died : ScanRun
died = record first_run { status = RunStatus.failed; error = some (codes "OSError: disk full") }

before_colon : split_reason (codes "OSError: disk full") ≡ codes "OSError"
before_colon = refl

no_colon : split_reason (codes "lease expired") ≡ codes "lease expired"
no_colon = refl

recent_failures_exact_example :
    let rows = recent_failures text_lt 1 (died ∷ first_run ∷ died ∷ []) in
    let count = failures_for 1 (codes "OSError") (died ∷ first_run ∷ died ∷ []) in
    IsReport 1 (died ∷ first_run ∷ died ∷ []) rows
    × ((count ≡ 0)
        ⊎ In (record { reason = codes "OSError"; count = count }) rows
        ⊎ ((length rows ≡ 10) × All (λ (row : FailureReason). count ≤ row.count) rows))
recent_failures_exact_example =
    recent_failures_exact text_lt 1 (died ∷ first_run ∷ died ∷ []) (codes "OSError")
      text_lt-IsComparison

two_died : failures_for 1 (codes "OSError") (died ∷ first_run ∷ died ∷ []) ≡ 2
unfolding text_eq
two_died = refl
