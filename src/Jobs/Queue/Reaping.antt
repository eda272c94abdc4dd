-- ===== src/Jobs/Queue/Reaping.antt =====
-- What `reap_expired_leases` reports and what it leaves (app/jobs/queue.py).
use echo_security_scanner.Base.{
  ℕ, ◌≡◌, refl, true, false, some, List, [], ◌∷◌, map, arith, if◌then◌else◌, filter, any, All, In,
  here, there, filter_keeps,
}
use mathlib.Core.List.{map-map}
use echo_security_scanner.Domain.Models.{ScanJob, is_failed, is_active}
use echo_security_scanner.Domain.Database.{Db, get_job}
use echo_security_scanner.Jobs.Queue.{
  Clocks, ReapedJob, expired, reaped, reaped_job, reap_rows, reap_expired_leases,
}
use echo_security_scanner.Jobs.Queue.Exclusion.{IsQueueSound, reap_expired_leases-IsQueueSound}
use echo_security_scanner.Jobs.Queue.Rows.{get_job_unique}

-- The report of one reaped job agrees with the table.
abbrev pub IsReported : List ScanJob → ReapedJob → Type 0
IsReported jobs r =
    (j : ScanJob) × (get_job r.job_id jobs ≡ some j)
    × (j.image_id ≡ r.image_id)
    × (is_failed j.status ≡ r.exhausted)
    × (is_active j.status ≡ (if r.exhausted then false else true))

none_left :
    (now : Clocks) (m : ℕ) (jobs : List ScanJob) → any (expired now) (reap_rows now m jobs) ≡ false
none_left now m [] = refl
none_left now m (j ∷ jobs) = ground (arith, none_left now m jobs)

In-reap_rows :
    (now : Clocks) (m : ℕ) (jobs : List ScanJob) {j : ScanJob}
    → In j jobs
    → expired now j ≡ true
    → In (reaped m j) (reap_rows now m jobs)
In-reap_rows now m (x ∷ jobs) here h = rw h here
In-reap_rows now m (x ∷ jobs) (there k) h = there (In-reap_rows now m jobs k h)
In-reap_rows now m [] k h = elim k [ ]

report :
    (now : Clocks) (m : ℕ) (jobs rows : List ScanJob)
    → ((j : ScanJob) → In j rows → IsReported jobs (reaped_job (reaped m j)))
    → All (IsReported jobs) (map (λ j. reaped_job (reaped m j)) rows)
report now m jobs [] h = tt
report now m jobs (x ∷ rows) h = (h x here, report now m jobs rows (λ j k. h j (there k)))

-- After a reap no lease is expired. The report names each job whose lease had expired, in the
-- table's order, with its image, and says of each whether the table now has it failed; the others
-- of them are active again.
pub reap_expired_leases_exact :
    (now : Clocks) (max_attempts : ℕ) (db : Db)
    → IsQueueSound db
    → let (report, after) = reap_expired_leases now max_attempts db in
      (any (expired now) after.jobs ≡ false)
      × (map (λ r. r.job_id) report ≡ map (λ j. j.id) (filter (expired now) db.jobs))
      × All (IsReported after.jobs) report
unfolding reap_expired_leases
reap_expired_leases_exact now m db sound = (
  none_left now m db.jobs,
  ids (filter (expired now) db.jobs),
  report now m (reap_rows now m db.jobs) (filter (expired now) db.jobs) at_row,
)
  where
    ids :
        (rows : List ScanJob)
        → map (λ r. r.job_id) (map (λ j. reaped_job (reaped m j)) rows) ≡ map (λ j. j.id) rows
    ids rows = map-map (λ (r : ReapedJob). r.job_id) (λ j. reaped_job (reaped m j)) rows

    at_row :
        (j : ScanJob)
        → In j (filter (expired now) db.jobs)
        → IsReported (reap_rows now m db.jobs) (reaped_job (reaped m j))
    at_row j k =
        let kept = filter_keeps (expired now) db.jobs k in
        (
          reaped m j,
          get_job_unique (reaped m j) (reap_rows now m db.jobs)
              (In-reap_rows now m db.jobs kept.0 kept.1)
              ((reap_expired_leases-IsQueueSound now m db sound).keyed j.id),
          refl,
          refl,
          ground arith,
        )
