-- ===== src/Examples/Outside.antt =====
-- Trivy's exits and the API at concrete values (app/scanner/trivy.py, app/api).
use echo_security_scanner.Base.{
  ◌≡◌, ◌≢◌, ◌↔◌, ◌⊎◌, refl, true, none, some, [], ◌∷◌, codes, strip, text_eq, show_nat,
}
use echo_security_scanner.Base.Float.{pos}
use echo_security_scanner.Errors.{ok, raise, trivy_rate_limited}
use echo_security_scanner.Config.{Settings}
use echo_security_scanner.Domain.Severity.{unknown, high, upper, value}
use echo_security_scanner.Domain.Database.{Db, Session}
use echo_security_scanner.Scanner.Parser.{is_rate_limit_error}
use echo_security_scanner.Scanner.Trivy.{Completed, completed, failure_detail, run_scan, scan_flags}
use echo_security_scanner.Scanner.Trivy.Exits.{run_scan_returned, run_scan_throttled}
use echo_security_scanner.Scanner.Trivy.Flags.{server, scan_flags-server}
use echo_security_scanner.Api.Params.{PageParams, accepted, page_params, severity_filter}
use echo_security_scanner.Api.Params.Bounds.{severity_filter_accepts}
use echo_security_scanner.Api.Requests.{is_named, request}
use echo_security_scanner.Api.Requests.Answers.{IsQueued, IsPromoted, IsLeft, request_answers}
use echo_security_scanner.Examples.Queue.{noon, queued, queued-IsQueueSound}
use echo_security_scanner.Examples.Scans.{nginx}
use echo_security_scanner.Examples.Settled.{defaults}

abbrev clean_exit : Completed
clean_exit = record { returncode = pos 0; stdout = codes "{}"; stderr = [] }

abbrev throttled_exit : Completed
throttled_exit = record { returncode = pos 1; stdout = []; stderr = codes "TOOMANYREQUESTS" }

clean_scan :
    run_scan (λ _ _. completed clean_exit) (codes "nginx:latest") defaults ≡ ok (codes "{}")
unfolding run_scan
clean_scan = refl

run_scan_returned_example :
    (c : Completed) × (completed clean_exit ≡ completed c)
    × (c.returncode ≡ pos 0)
    × (c.stdout ≡ codes "{}")
run_scan_returned_example =
    run_scan_returned (λ _ _. completed clean_exit) (codes "nginx:latest") defaults (codes "{}")
      clean_scan

throttled_scan :
    run_scan (λ _ _. completed throttled_exit) (codes "nginx:latest") defaults
    ≡ raise (trivy_rate_limited (codes "trivy exited 1: TOOMANYREQUESTS"))
unfolding run_scan strip is_rate_limit_error show_nat
throttled_scan = refl

run_scan_throttled_example :
    (c : Completed) × (completed throttled_exit ≡ completed c)
    × (c.returncode ≢ pos 0)
    × (is_rate_limit_error (failure_detail c) ≡ true)
run_scan_throttled_example =
    run_scan_throttled (λ _ _. completed throttled_exit) (codes "nginx:latest") defaults
      (codes "trivy exited 1: TOOMANYREQUESTS") throttled_scan

abbrev client_mode : Settings
client_mode = record defaults { trivy_server_url = some (codes "http://trivy") }

scan_flags-server_example :
    (scan_flags defaults ≡ scan_flags client_mode)
    ↔ (server none ≡ server (some (codes "http://trivy")))
scan_flags-server_example = scan_flags-server defaults client_mode

abbrev first_page : PageParams
first_page = record { limit = 1000; offset = 20 }

asked : page_params (some 5000) 20 defaults ≡ accepted first_page
unfolding page_params
asked = refl

severity_filter_accepts_example :
    (severity_filter (some (codes " high")) ≡ accepted (some high))
    ↔ ((upper (strip (codes " high")) ≡ value high) × (high ≢ unknown))
severity_filter_accepts_example = severity_filter_accepts (codes " high") high

abbrev with_nginx : Db
with_nginx = record queued { images = nginx ∷ [] }

abbrev api_session : Session
api_session = record { committed = with_nginx; current = with_nginx }

nginx_found : is_named (codes "nginx") (codes "latest") nginx ≡ true
unfolding text_eq
nginx_found = refl

request_answers_example :
    IsQueued noon nginx true api_session
      (request noon (codes "nginx") (codes "latest") true api_session)
    ⊎ (IsPromoted noon nginx true api_session
          (request noon (codes "nginx") (codes "latest") true api_session)
        ⊎ IsLeft nginx true api_session
            (request noon (codes "nginx") (codes "latest") true api_session))
request_answers_example =
    request_answers noon (codes "nginx") (codes "latest") nginx api_session queued-IsQueueSound
      (rw nginx_found refl) true
