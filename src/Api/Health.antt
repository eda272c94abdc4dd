-- ===== src/Api/Health.antt =====
-- `health` of app/api/routes/health.py. `tables` is what the connection gives: the tables, or its
-- exception.
use echo_security_scanner.Base.{ℕ, ◌≡◌, refl, none, some, codes, length, filter}
use echo_security_scanner.Errors.{Result, ok, raise, stale_data}
use echo_security_scanner.Domain.Models.{RunStatus, is_pending}
use echo_security_scanner.Domain.Database.{Db}
use echo_security_scanner.Api.Schemas.{Health}
use echo_security_scanner.Api.Freshness.{newest}
use echo_security_scanner.Api.Stats.{run_status_eq}

-- The status of the answer, and its body.
unfoldable pub health : Result Db → ℕ × Health
unfolding newest
health (raise _) = (
  503,
  record {
    status = codes "degraded";
    database = codes "unavailable";
    images_enabled = none;
    jobs_pending = none;
    last_successful_scan_at = none;
  },
)
health (ok tables) = (
  200,
  record {
    status = codes "ok";
    database = codes "ok";
    images_enabled = some (length (filter (λ i. i.enabled) tables.images));
    jobs_pending = some (length (filter (λ j. is_pending j.status) tables.jobs));
    last_successful_scan_at =
        newest (filter (λ r. run_status_eq r.status RunStatus.success) tables.runs);
  },
)

-- Without a database the check says so, and raises nothing.
degraded : (health (raise stale_data)).0 ≡ 503
unfolding health
degraded = refl
