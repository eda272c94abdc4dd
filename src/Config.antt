-- ===== src/Config.antt =====
-- app/config.py: the settings that the modelled code reads, and their validator.
use echo_security_scanner.Base.{ℕ, Option, Text, codes, leb, if◌then◌else◌}
use echo_security_scanner.Errors.{Result, ok, raise, other}
use echo_security_scanner.Jobs.Queue.{RetryPolicy}

-- Numbers of seconds, attempts and rows; the program's deployments give none below 0.
pub record Settings : Type 0 where
  pub default_scan_interval_seconds : ℕ
  pub max_failure_backoff_seconds : ℕ
  pub lease_seconds : ℕ
  pub max_attempts : ℕ
  pub backoff_base_seconds : ℕ
  pub backoff_max_seconds : ℕ
  pub trivy_bin : Text
  pub trivy_cache_dir : Text
  pub trivy_timeout_seconds : ℕ
  pub trivy_server_url : Option Text
  pub page_size_default : ℕ
  pub page_size_max : ℕ

-- `_lease_outlives_a_scan`; of its message only the beginning is kept.
unfoldable pub validated : Settings → Result Settings
validated s =
    if leb s.lease_seconds s.trivy_timeout_seconds
    then raise
        (other (codes "ValueError") (codes "lease_seconds must exceed trivy_timeout_seconds"))
    else ok s

-- What `queue.fail` is called with, with `max_attempts` as the caller gives it.
abbrev pub retry_policy : Settings → ℕ → RetryPolicy
retry_policy s max_attempts = record {
  max_attempts = max_attempts;
  backoff_base_seconds = s.backoff_base_seconds;
  backoff_max_seconds = s.backoff_max_seconds;
}
