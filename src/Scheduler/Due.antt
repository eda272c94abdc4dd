-- ===== src/Scheduler/Due.antt =====
-- When an image is due (`next_due_at` of app/scheduler/scheduler.py), as its failures add up.
use native.Mathlib.Nat.{pow-suc}
use echo_security_scanner.Base.{
  ℕ, suc, ◌+◌, ◌*◌, ◌^◌, ◌≤◌, ◌<◌, ◌≡◌, ◌≢◌, some, arith, or_else_nat, ◌==◌, Bool-cases, inl, inr,
  zero,
}
use echo_security_scanner.Domain.Models.{Time, seconds, Image}
use echo_security_scanner.Scheduler.{next_due_at, scan_interval}

abbrev pub failing_more : Image → Image
failing_more image = record image { consecutive_failures = image.consecutive_failures + 1 }

abbrev pub healthy : Image → Image
healthy image = record image { consecutive_failures = 0 }

doubled : (i n : ℕ) → i * 2 ^ (n + 1) ≡ 2 * (i * 2 ^ n)
doubled i n = let next : n + 1 ≡ suc n = omega arith in rw (next, pow-suc) (omega arith)

scan_interval_grows :
    (image : Image) (d m : ℕ)
    → or_else_nat image.scan_interval_seconds d ≤ m
    → (scan_interval image d m ≤ scan_interval (failing_more image) d m)
      × (scan_interval (failing_more image) d m ≤ m)
unfolding scan_interval
scan_interval_grows image d m h =
    let next = doubled (or_else_nat image.scan_interval_seconds d) image.consecutive_failures in
    elim (Bool-cases (image.consecutive_failures == 0)) [
      | inl e ↦
          let none_yet : image.consecutive_failures ≡ 0 = ground (arith, e) in
          let once : or_else_nat image.scan_interval_seconds d * 2 ^ 0
              ≡ or_else_nat image.scan_interval_seconds d =
            omega arith in
          ground (arith, next, once, none_yet)
      | inr e ↦ ground (arith, next, e)
    ]

-- Where the image's own interval is within the ceiling, one more failure never brings the next scan
-- forward, and the next scan is at the latest the ceiling after the last.
pub next_due_at_grows :
    (image : Image) (last : Time) (d m : ℕ)
    → image.last_scan_at ≡ some last
    → or_else_nat image.scan_interval_seconds d ≤ m
    → (next_due_at image d m ≤ next_due_at (failing_more image) d m)
      × (next_due_at (failing_more image) d m ≤ last + seconds m)
unfolding next_due_at
next_due_at_grows image last d m e h = rw e (ground (arith, scan_interval_grows image d m h))

below_power : (i n : ℕ) → i ≤ i * 2 ^ n
below_power i zero = omega arith
below_power i (suc n) = rw pow-suc (omega (arith, below_power i n))

-- Where the image's own interval is above the ceiling, a failing image is due exactly the ceiling
-- after its last scan, and so before it would be due if it were healthy.
pub next_due_at_failing_early :
    (image : Image) (last : Time) (d m : ℕ)
    → image.last_scan_at ≡ some last
    → image.consecutive_failures ≢ 0
    → m < or_else_nat image.scan_interval_seconds d
    → (next_due_at image d m ≡ last + seconds m)
      × (next_due_at image d m < next_due_at (healthy image) d m)
unfolding next_due_at scan_interval
next_due_at_failing_early image last d m e f h =
    let positive =
      below_power (or_else_nat image.scan_interval_seconds d) image.consecutive_failures in
    rw e (ground (arith, positive))
