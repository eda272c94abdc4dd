-- ===== src/Examples/Requests.antt =====
-- A health check in the log (app/api/middleware.py).
use echo_security_scanner.Base.{text_eq, ◌≡◌, refl, none, some, [], Text, codes, show_nat}
use echo_security_scanner.Errors.{ok, Exec}
use echo_security_scanner.Obs.{
  answered, bound, LogState, LogLine, Request, Response, get_field, request_context,
}
use echo_security_scanner.Obs.Requests.{added, entered, IsAnswered, request_context_lem}

abbrev probe : Request
probe = record { method = codes "GET"; path = codes "/health"; request_id = some [] }

abbrev healthy : Exec (LogState Text) Response
healthy s = (ok (record { status_code = 200; request_id = none }), s)

abbrev quiet : LogState Text
quiet = record { context = none; threshold = 20; lines = [] }

abbrev plain : Text → Text
plain t = t

request_context_lem_example :
    let out =
      request_context plain plain show_nat (codes "f00d") (codes "1.5") probe healthy quiet in
    let inside = entered plain plain show_nat (codes "f00d") (codes "1.5") probe healthy quiet in
    (line : LogLine Text) × (out.1.context ≡ none)
    × (out.1.lines ≡ added inside line)
    × (get_field (codes "request_id") line.context ≡ some (codes "f00d"))
    × IsAnswered plain plain show_nat
        (codes "f00d")
        (codes "1.5")
        probe
        healthy
        (healthy inside).0
        out.0
        line
request_context_lem_example =
    request_context_lem plain plain show_nat (codes "f00d") (codes "1.5") probe healthy quiet refl

-- At the default level a health check leaves no line.
unheard :
    (request_context plain plain show_nat (codes "f00d") (codes "1.5") probe healthy quiet).1.lines
    ≡ []
unfolding request_context answered bound text_eq
unheard = refl
