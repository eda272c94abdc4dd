-- ===== src/Examples/Queue.antt =====
-- The queue's theorems at a queue of three jobs (app/jobs/queue.py).
use echo_security_scanner.Base.{
  ◌+◌, ◌*◌, ◌≤◌, ◌≡◌, refl, ◌⊎◌, true, false, none, some, List, [], ◌∷◌, map, codes, arith, min,
  filter, any, All, In, here,
}
use echo_security_scanner.Errors.{ok}
use echo_security_scanner.Domain.Models.{JobStatus, ScanJob, seconds}
use echo_security_scanner.Domain.Database.{Db, put_job}
use echo_security_scanner.Jobs.Queue.{
  Clocks, RetryPolicy, backoff_delay, promote, claim, claimable, leased, defer, deferred, expired,
  reap_expired_leases,
}
use echo_security_scanner.Jobs.Queue.Exclusion.{IsQueueSound}
use echo_security_scanner.Jobs.Queue.Claiming.{IsTakeable, IsAhead, claim_exact}
use echo_security_scanner.Jobs.Queue.Retry.{backoff_delay_doubles}
use echo_security_scanner.Jobs.Queue.Reaping.{IsReported, reap_expired_leases_exact}
use echo_security_scanner.Jobs.Queue.Promotion.{promoted_after_defer}
use echo_security_scanner.Jobs.Queue.Lifecycle.{
  Event, claims, completes, refuses, defers, reaps, promotes, Life,
}

abbrev pub noon : Clocks
noon = record { wall = 1000; transaction = 1000; statement = 1000 }

abbrev pub orphan : ScanJob
orphan = record {
  id = 1;
  image_id = 1;
  status = JobStatus.running;
  priority = 0;
  scheduled_for = 10;
  lease_until = some 500;
  attempts = 4;
  last_error = none;
  created_at = 10;
}

abbrev pub waiting : ScanJob
waiting = record orphan {
  id = 2;
  image_id = 2;
  status = JobStatus.pending;
  lease_until = none;
  attempts = 0;
}

abbrev finished : ScanJob
finished = record orphan { id = 3; status = JobStatus.done; lease_until = none }

abbrev pub queued : Db
queued = record {
  images = [];
  jobs = orphan ∷ waiting ∷ finished ∷ [];
  runs = [];
  packages = [];
  cves = [];
  findings = [];
  seq = record { next_job = 4; next_run = 1; next_package = 1; next_finding = 1 };
}

pub queued-IsQueueSound : IsQueueSound queued
queued-IsQueueSound = record {
  exclusive = λ k. ground arith;
  keyed = λ k. ground arith;
  fresh = ground arith;
}

claim_exact_example :
    (All (λ k. ¬ IsTakeable (λ _. false) noon k) queued.jobs
      × (claim (λ _. false) noon 60 queued ≡ (ok none, queued)))
    ⊎ ((j : ScanJob) × In j queued.jobs
        × IsTakeable (λ _. false) noon j
        × All (λ k. IsTakeable (λ _. false) noon k → IsAhead j k) queued.jobs
        × (claim (λ _. false) noon 60 queued ≡ (
          ok (some (leased noon 60 j)),
          record queued { jobs = put_job (leased noon 60 j) queued.jobs },
        )))
claim_exact_example = claim_exact (λ _. false) noon 60 queued queued-IsQueueSound

abbrev policy : RetryPolicy
policy = record { max_attempts = 3; backoff_base_seconds = 30; backoff_max_seconds = 3600 }

abbrev new_life : Life
new_life = record { job = waiting; claimed = 0; postponed = 0; refused = false }

abbrev bad_day : List Event
bad_day =
    claims noon 60
    ∷ reaps
    ∷ claims noon 60
    ∷ defers noon 5 (codes "429")
    ∷ promotes noon
    ∷ claims noon 60
    ∷ refuses noon (codes "no such image")
    ∷ completes
    ∷ []

reap_expired_leases_exact_example :
    (any (expired noon) (reap_expired_leases noon 5 queued).1.jobs ≡ false)
    × (map (λ r. r.job_id) (reap_expired_leases noon 5 queued).0
        ≡ map (λ j. j.id) (filter (expired noon) queued.jobs))
    × All
        (IsReported (reap_expired_leases noon 5 queued).1.jobs)
        (reap_expired_leases noon 5 queued).0
reap_expired_leases_exact_example = reap_expired_leases_exact noon 5 queued queued-IsQueueSound

backoff_delay_doubles_example :
    (backoff_delay policy (4 + 2) ≡ min (2 * backoff_delay policy (4 + 1)) 3600)
    × (backoff_delay policy (4 + 1) ≤ 3600)
    × (backoff_delay policy (4 + 1) ≤ backoff_delay policy (4 + 2))
backoff_delay_doubles_example = backoff_delay_doubles policy 4

abbrev set_back : ScanJob
set_back = deferred (1000 + seconds 300) (codes "429") waiting

abbrev throttled : Db
throttled = record queued { jobs = set_back ∷ [] }

set_back_lem : defer noon 300 (codes "429") waiting ≡ ok set_back
unfolding defer
set_back_lem = refl

promoted_after_defer_example :
    let urgent = record set_back { priority = 100; scheduled_for = 1000 } in
    In urgent (promote noon 2 throttled).1.jobs × (claimable (λ _. false) noon urgent ≡ true)
promoted_after_defer_example =
    promoted_after_defer noon noon noon 300 (codes "429") waiting set_back throttled set_back_lem
      here (omega arith) (omega arith)
