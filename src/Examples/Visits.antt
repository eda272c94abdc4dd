-- ===== src/Examples/Visits.antt =====
-- Claims one after the other, and sessions that follow one another (app/jobs/queue.py).
use echo_security_scanner.Base.{refl, false, none, [], ◌∷◌, arith, here, there, In}
use echo_security_scanner.Domain.Database.{Session, commit, rollback}
use echo_security_scanner.Jobs.Queue.{leased}
use echo_security_scanner.Jobs.Queue.Claiming.{IsTakeable}
use echo_security_scanner.Jobs.Queue.Draining.{Visit, claims, claims_reach}
use echo_security_scanner.Jobs.Queue.Reachable.{
  enqueues, operate, operates, commits, rolls_back, Steps, next, IsSoundSession,
  Steps-IsSoundSession,
}
use echo_security_scanner.Examples.Queue.{noon, waiting, queued, queued-IsQueueSound}

abbrev visit : Visit
visit = record { locked = λ _. false; now = noon }

waiting-IsTakeable : IsTakeable (λ _. false) noon waiting
waiting-IsTakeable = record { pending = refl; due = omega arith; free = refl }

claims_reach_example :
    (v : Visit) × In v (visit ∷ visit ∷ [])
    × In (leased v.now 60 waiting) (claims (visit ∷ visit ∷ []) 60 queued).jobs
claims_reach_example =
    claims_reach (visit ∷ visit ∷ []) 60 queued waiting queued-IsQueueSound (there here)
      (waiting-IsTakeable, (waiting-IsTakeable, tt)) refl (omega arith)

abbrev opened : Session
opened = record { committed = queued; current = queued }

abbrev enqueued : Session
enqueued = record opened { current = operate (enqueues noon 9 0 none) queued }

abbrev closed : Session
closed = (rollback (commit enqueued).1).1

one_request : Steps opened closed
one_request =
    next (operates (enqueues noon 9 0 none) opened)
      (next (commits enqueued) (next (rolls_back (commit enqueued).1) (Steps.done closed)))

Steps-IsSoundSession_example : IsSoundSession closed
Steps-IsSoundSession_example =
    Steps-IsSoundSession one_request
      (record { current = queued-IsQueueSound; committed = queued-IsQueueSound })
