-- ===== src/Scanner/Trivy/Exits.antt =====
-- What the scan's exit means to the worker (`_run`, `run_scan` of app/scanner/trivy.py).
use echo_security_scanner.Base.{
  ℕ, ◌≡◌, refl, ap, subst, ==_iff, ◌≢◌, true, false, List, Text, arith,
}
use echo_security_scanner.Base.Float.{ℤ, pos, negsuc}
use echo_security_scanner.Errors.{ok, raise, trivy_rate_limited}
use echo_security_scanner.Config.{Settings}
use echo_security_scanner.Scanner.Parser.{is_rate_limit_error}
use echo_security_scanner.Scanner.Trivy.{
  Completed, Invocation, completed, file_not_found, timeout_expired, os_error, build_argv, is_zero,
  failure_detail, exited, invoked, run_scan,
}

zero_code : (z : ℤ) → is_zero z ≡ true → z ≡ pos 0
zero_code (pos n) h = ap pos ((==_iff n 0).0 h)
zero_code (negsuc n) h = cc

not_zero : (z : ℤ) → is_zero z ≡ false → z ≢ pos 0
not_zero z h e = cc (subst (λ y. is_zero y ≡ false) e h)

exited_ok :
    (c : Completed) (out : Text)
    → exited c ≡ ok out
    → (is_zero c.returncode ≡ true) × (c.stdout ≡ out)
unfolding exited
exited_ok c out h = ground arith

exited_throttled :
    (c : Completed) (m : Text)
    → exited c ≡ raise (trivy_rate_limited m)
    → (is_zero c.returncode ≡ false) × (is_rate_limit_error (failure_detail c) ≡ true)
unfolding exited
exited_throttled c m h = ground arith

-- What an answer of the subprocess says when the scan returns, and when it is throttled.
invoked_ok :
    (argv : List Text) (timeout : ℕ) (i : Invocation) (out : Text)
    → invoked argv timeout i ≡ ok out
    → (c : Completed) × (i ≡ completed c) × (c.returncode ≡ pos 0) × (c.stdout ≡ out)
unfolding invoked
invoked_ok argv timeout file_not_found out h = cc
invoked_ok argv timeout timeout_expired out h = cc
invoked_ok argv timeout (os_error n m) out h = cc
invoked_ok argv timeout (completed c) out h =
    let e = exited_ok c out h in (c, refl, zero_code c.returncode e.0, e.1)

invoked_throttled :
    (argv : List Text) (timeout : ℕ) (i : Invocation) (m : Text)
    → invoked argv timeout i ≡ raise (trivy_rate_limited m)
    → (c : Completed) × (i ≡ completed c)
      × (is_zero c.returncode ≡ false)
      × (is_rate_limit_error (failure_detail c) ≡ true)
unfolding invoked
invoked_throttled argv timeout file_not_found m h = cc
invoked_throttled argv timeout timeout_expired m h = cc
invoked_throttled argv timeout (os_error n k) m h = cc
invoked_throttled argv timeout (completed c) m h =
    let e = exited_throttled c m h in (c, refl, e.0, e.1)

-- A scan that returns a text: Trivy, called with the image's arguments and the time limit of the
-- settings, exited with 0, and the text is its output.
pub run_scan_returned :
    (subprocess : List Text → ℕ → Invocation) (image_ref : Text) (settings : Settings) (out : Text)
    → run_scan subprocess image_ref settings ≡ ok out
    → (c : Completed) × (subprocess (build_argv image_ref settings) settings.trivy_timeout_seconds
        ≡ completed c)
      × (c.returncode ≡ pos 0)
      × (c.stdout ≡ out)
unfolding run_scan
run_scan_returned subprocess image_ref settings out h =
    invoked_ok (build_argv image_ref settings) settings.trivy_timeout_seconds _ out h

-- A scan that reports throttling: Trivy, called in that way, came to its end with another code than
-- 0, and the first 2000 characters of its complaint hold a marker of throttling.
pub run_scan_throttled :
    (subprocess : List Text → ℕ → Invocation) (image_ref : Text) (settings : Settings) (m : Text)
    → run_scan subprocess image_ref settings ≡ raise (trivy_rate_limited m)
    → (c : Completed) × (subprocess (build_argv image_ref settings) settings.trivy_timeout_seconds
        ≡ completed c)
      × (c.returncode ≢ pos 0)
      × (is_rate_limit_error (failure_detail c) ≡ true)
unfolding run_scan
run_scan_throttled subprocess image_ref settings m h =
    let (c, e, n, d) =
      invoked_throttled (build_argv image_ref settings) settings.trivy_timeout_seconds _ m h in
    (c, e, not_zero c.returncode n, d)
