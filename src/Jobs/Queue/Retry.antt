-- ===== src/Jobs/Queue/Retry.antt =====
-- The backoff between the tries of one job (`fail` of app/jobs/queue.py).
use echo_security_scanner.Base.{ℕ, suc, ◌+◌, ◌-◌, ◌*◌, ◌≤◌, ◌≡◌, min, arith}
use native.Mathlib.Nat.{pow-suc}
use echo_security_scanner.Jobs.Queue.{RetryPolicy, backoff_delay}

-- The delay before the try after `n + 1` failures doubles with each further failure, until the
-- ceiling; it never passes the ceiling and never falls.
pub backoff_delay_doubles :
    (p : RetryPolicy) (n : ℕ)
    → (backoff_delay p (n + 2) ≡ min (2 * backoff_delay p (n + 1)) p.backoff_max_seconds)
      × (backoff_delay p (n + 1) ≤ p.backoff_max_seconds)
      × (backoff_delay p (n + 1) ≤ backoff_delay p (n + 2))
unfolding backoff_delay
backoff_delay_doubles p n =
    let here : n + 1 - 1 ≡ n = omega arith in
    let next : n + 2 - 1 ≡ suc n = omega arith in
    rw (here, next, pow-suc) (omega arith, omega arith, omega arith)
