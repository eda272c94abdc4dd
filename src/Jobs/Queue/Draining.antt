-- ===== src/Jobs/Queue/Draining.antt =====
-- No due job waits forever: claims one after the other (app/jobs/queue.py).
use echo_security_scanner.Base.{
  All_at, ℕ, ◌+◌, ◌≤◌, ◌≡◌, ◌≢◌, refl, sym, ap, ◌∙◌, inl, inr, Bool, true, false, List, [], ◌∷◌,
  arith, ◌==◌, ==_iff, length, filter, All, In, here, there, length-filter-map-le, if◌then◌else◌,
  Bool-cases,
}
use echo_security_scanner.Domain.Models.{JobStatus, ScanJob, is_pending}
use echo_security_scanner.Domain.Database.{Db, get_job, put_job}
use echo_security_scanner.Jobs.Queue.{Clocks, leased, claim}
use echo_security_scanner.Jobs.Queue.Exclusion.{IsQueueSound, claim-IsQueueSound}
use echo_security_scanner.Jobs.Queue.Rows.{In-filter-le, get_job_unique}
use echo_security_scanner.Jobs.Queue.Claiming.{IsTakeable, claim_exact}

-- A worker that comes for a job: the rows that others hold, and its clocks.
pub record Visit : Type 0 where
  pub locked : ℕ → Bool
  pub now : Clocks

-- The table after the visits, each of which commits.
pub claims : List Visit → ℕ → Db → Db
claims [] lease db = db
claims (v ∷ rest) lease db = claims rest lease (claim v.locked v.now lease db).1

-- The number of pending jobs.
abbrev pub waiting_jobs : Db → ℕ
waiting_jobs db = length (filter (λ j. is_pending j.status) db.jobs)

put_job-fewer :
    (k r : ScanJob) (jobs : List ScanJob)
    → In k jobs
    → r.id ≡ k.id
    → is_pending k.status ≡ true
    → is_pending r.status ≡ false
    → length (filter (λ j. is_pending j.status) (put_job r jobs)) + 1
      ≤ length (filter (λ j. is_pending j.status) jobs)
put_job-fewer k r [] m e p n = elim m [ ]
put_job-fewer k r (x ∷ jobs) here e p n = ground (
  arith,
  length-filter-map-le (λ (j : ScanJob). is_pending j.status) (λ j. is_pending j.status)
      (λ j. if j.id == r.id then r else j) (λ j h. ground arith) jobs,
)
put_job-fewer k r (x ∷ jobs) (there m) e p n = ground (arith, put_job-fewer k r jobs m e p n)

In-put_job_other :
    (x r : ScanJob) (jobs : List ScanJob) → In x jobs → x.id ≢ r.id → In x (put_job r jobs)
In-put_job_other x r [] m d = elim m [ ]
In-put_job_other x r (y ∷ jobs) here d =
    let other : (x.id == r.id) ≡ false = ground arith in rw other here
In-put_job_other x r (y ∷ jobs) (there m) d = there (In-put_job_other x r jobs m d)

pub In-put_job_self :
    (k r : ScanJob) (jobs : List ScanJob) → In k jobs → r.id ≡ k.id → In r (put_job r jobs)
In-put_job_self k r [] m e = elim m [ ]
In-put_job_self k r (y ∷ jobs) here e =
    let same : (k.id == r.id) ≡ true = ground arith in rw same here
In-put_job_self k r (y ∷ jobs) (there m) e = there (In-put_job_self k r jobs m e)

-- Jobs with one id are one job.
same_job :
    (db : Db) (j k : ScanJob) → IsQueueSound db → In j db.jobs → In k db.jobs → j.id ≡ k.id → j ≡ k
same_job db j k sound m n e =
    let a = get_job_unique j db.jobs m (sound.keyed j.id) in
    let b = get_job_unique k db.jobs n (sound.keyed k.id) in
    cc (sym a ∙ ap (λ i. get_job i db.jobs) e ∙ b)

-- The table after a claim that takes `k`.
abbrev taking : Clocks → ℕ → ScanJob → Db → Db
taking now lease k db = record db { jobs = put_job (leased now lease k) db.jobs }

-- A running job stays as it is.
claim_keeps :
    (v : Visit) (lease : ℕ) (x : ScanJob) (db : Db)
    → IsQueueSound db
    → In x db.jobs
    → x.status ≡ JobStatus.running
    → In x (claim v.locked v.now lease db).1.jobs
claim_keeps v lease x db sound m running = elim (claim_exact v.locked v.now lease db sound) [
  | inl (_, e) ↦ rw e m
  | inr (k, n, t, _, e) ↦ rw e (
      In-put_job_other x (leased v.now lease k) db.jobs m (λ same.
        absurd (
          cc
            (t.pending, running, ap (λ (j : ScanJob). j.status) (same_job db x k sound m n same)))))
]

claims_keep :
    (visits : List Visit) (lease : ℕ) (x : ScanJob) (db : Db)
    → IsQueueSound db
    → In x db.jobs
    → x.status ≡ JobStatus.running
    → In x (claims visits lease db).jobs
unfolding claims
claims_keep [] lease x db sound m running = m
claims_keep (v ∷ rest) lease x db sound m running =
    claims_keep rest lease x (claim v.locked v.now lease db).1
      (claim-IsQueueSound v.locked v.now lease db sound) (claim_keeps v lease x db sound m running)
      running

-- Visits come one after the other, each may find other rows locked, and nothing else changes the table.
-- A job of a sound queue that is due and free at every visit is leased by one of them, at that visit's
-- time, and stays so, as soon as there are as many visits as pending jobs.
pub claims_reach :
    (visits : List Visit) (lease : ℕ) (db : Db) (j : ScanJob)
    → IsQueueSound db
    → In j db.jobs
    → All (λ (v : Visit). IsTakeable v.locked v.now j) visits
    → j.status ≡ JobStatus.pending
    → waiting_jobs db ≤ length visits
    → (v : Visit) × In v visits × In (leased v.now lease j) (claims visits lease db).jobs
unfolding claims
claims_reach [] lease db j sound m free p enough =
    absurd (
      omega
        (arith, In-filter-le (λ (k : ScanJob). is_pending k.status) db.jobs m (ap is_pending p)))
claims_reach (v ∷ rest) lease db j sound m free p enough =
    elim (claim_exact v.locked v.now lease db sound) [
      | inl (nobody, _) ↦ absurd (All_at _ nobody m free.0)
      | inr (k, n, t, _, e) ↦
          let new = leased v.now lease k in
          let after : (claim v.locked v.now lease db).1 ≡ taking v.now lease k db =
            ap (λ r. r.1) e in
          let kept = claim-IsQueueSound v.locked v.now lease db sound in
          elim (Bool-cases (j.id == k.id)) [
            | inl same ↦
                let one : j ≡ k = same_job db j k sound m n ((==_iff j.id k.id).0 same) in
                let now_there : In (leased v.now lease j) (claim v.locked v.now lease db).1.jobs =
                  rw (one, after) (In-put_job_self k new db.jobs n refl) in
                (v, here, claims_keep rest lease (leased v.now lease j) _ kept now_there refl)
            | inr other ↦
                let still : In j (claim v.locked v.now lease db).1.jobs = rw after (
                  In-put_job_other j new db.jobs m
                    (λ s. absurd (cc (other, (==_iff j.id k.id).1 s)))) in
                let fewer : waiting_jobs (claim v.locked v.now lease db).1 + 1 ≤ waiting_jobs db =
                  rw after (put_job-fewer k new db.jobs n refl (ap is_pending t.pending) refl) in
                let (w, at, reached) =
                  claims_reach rest lease (claim v.locked v.now lease db).1 j kept still free.1 p
                    (omega (arith, fewer)) in
                (w, there at, reached)
          ]
    ]
