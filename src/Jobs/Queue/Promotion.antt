-- ===== src/Jobs/Queue/Promotion.antt =====
-- What the time-sensitive lane does to a job that is already queued (`build_promote_statement` of
-- app/jobs/queue.py).
use echo_security_scanner.Base.{
  ℕ, ◌+◌, ◌≤◌, ◌<◌, ◌≡◌, true, false, List, [], ◌∷◌, Text, arith, In, here, there,
}
use echo_security_scanner.Errors.{ok}
use echo_security_scanner.Domain.Models.{ScanJob, seconds}
use echo_security_scanner.Domain.Database.{Db}
use echo_security_scanner.Jobs.Queue.Exclusion.{scalar_one_or_none_state}
use echo_security_scanner.Jobs.Queue.{
  promote, Clocks, promotable, promoted, promote_rows, claimable, defer, deferred,
}

In-promote_rows :
    (now : Clocks) (image_id : ℕ) (jobs : List ScanJob) {j : ScanJob}
    → In j jobs
    → promotable image_id j ≡ true
    → In (promoted now j) (promote_rows now image_id jobs)
In-promote_rows now image_id (x ∷ jobs) here h = rw h here
In-promote_rows now image_id (x ∷ jobs) (there k) h = there (In-promote_rows now image_id jobs k h)
In-promote_rows now image_id [] k h = elim k [ ]

-- A job that a worker deferred at the registry's word, with any delay that a `datetime` can hold: once
-- the image is promoted, the queue holds it with priority 100 and due at the promotion, and else as it
-- was deferred; and any claim from that moment on may take it.
pub promoted_after_defer :
    (deferring promoting claiming : Clocks) (delay : ℕ) (reason : Text) (j k : ScanJob) (db : Db)
    → defer deferring delay reason j ≡ ok k
    → In k db.jobs
    → j.priority < 100
    → promoting.wall ≤ claiming.statement
    → let urgent = record k { priority = 100; scheduled_for = promoting.wall } in
      In urgent (promote promoting j.image_id db).1.jobs
      × (claimable (λ _. false) claiming urgent ≡ true)
unfolding defer promote
promoted_after_defer deferring promoting claiming delay reason j k db e m low soon =
    let same : deferred (deferring.wall + seconds delay) reason j ≡ k = ground (arith, e) in
    (
      rw scalar_one_or_none_state
          (In-promote_rows promoting j.image_id db.jobs m (rw (← same) (ground arith))),
      rw (← same) (ground arith),
    )
