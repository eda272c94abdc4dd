-- ===== src/Jobs/Queue/Exclusion.antt =====
-- At most one active job for an image, whatever the statements and the flushed objects do
-- (app/jobs/queue.py, the index `uq_scan_job_active` of app/domain/models.py).
use echo_security_scanner.Base.{
  ℕ, ◌+◌, ◌≤◌, ◌<◌, ◌≡◌, refl, Bool, true, false, Option, some, List, [], ◌∷◌, ◌++◌, map, arith,
  ◌==◌, if◌then◌else◌, length, filter, any, All, All_imp, All-append, length-filter-map-le,
  Option-cases, length-filter_snoc, filter-any-false, Bool-cases, inl, inr,
}
use echo_security_scanner.Errors.{state-then-pure}
use echo_security_scanner.Domain.Models.{Time, ScanJob}
use echo_security_scanner.Domain.Database.{Db, flush_job, merge_job, clashes, get_job, put_job}
use echo_security_scanner.Jobs.Queue.{
  Clocks, active_for, enqueue, first_row, claimable, leased, promote, claim, scalar_one_or_none,
  reap_expired_leases,
}

abbrev pub IsExclusive : List ScanJob → Type 0
IsExclusive jobs = (k : ℕ) → length (filter (active_for k) jobs) ≤ 1

abbrev pub IsKeyed : List ScanJob → Type 0
IsKeyed jobs = (k : ℕ) → length (filter (λ j. j.id == k) jobs) ≤ 1

-- What the tables' constraints promise of the queue: one active job for an image, the primary key,
-- and a sequence that is ahead of every id.
pub record IsSound (jobs : List ScanJob) (next : ℕ) : Type 0 where
  pub exclusive : IsExclusive jobs
  pub keyed : IsKeyed jobs
  pub fresh : All (λ j. j.id < next) jobs

-- The same of a database.
abbrev pub IsQueueSound : Db → Type 0
IsQueueSound db = IsSound db.jobs db.seq.next_job

fresh_absent :
    (n : ℕ) (jobs : List ScanJob) → All (λ j. j.id < n) jobs → filter (λ j. j.id == n) jobs ≡ []
fresh_absent n [] h = refl
fresh_absent n (j ∷ jobs) h = ground (arith, fresh_absent n jobs h.1)

put_job-inactive :
    (k : ℕ) (r : ScanJob) (jobs : List ScanJob)
    → active_for k r ≡ false
    → length (filter (active_for k) (put_job r jobs)) ≤ length (filter (active_for k) jobs)
put_job-inactive k r jobs h =
    length-filter-map-le (active_for k) (active_for k) (λ j. if j.id == r.id then r else j)
      (λ j p. ground arith) jobs

put_job-active :
    (k : ℕ) (r : ScanJob) (jobs : List ScanJob)
    → active_for k r ≡ true
    → clashes r jobs ≡ false
    → length (filter (active_for k) (put_job r jobs)) ≤ length (filter (λ j. j.id == r.id) jobs)
put_job-active k r [] h c = omega arith
put_job-active k r (j ∷ jobs) h c = ground (arith, put_job-active k r jobs h)

put_job-IsExclusive :
    (r : ScanJob) (jobs : List ScanJob)
    → clashes r jobs ≡ false
    → IsExclusive jobs
    → IsKeyed jobs
    → IsExclusive (put_job r jobs)
put_job-IsExclusive r jobs c h u k = elim (Bool-cases (active_for k r)) [
  | inl a ↦ omega (arith, put_job-active k r jobs a c, u r.id)
  | inr a ↦ omega (arith, put_job-inactive k r jobs a, h k)
]

put_job-IsKeyed : (r : ScanJob) (jobs : List ScanJob) → IsKeyed jobs → IsKeyed (put_job r jobs)
put_job-IsKeyed r jobs u k =
    let same =
      length-filter-map-le (λ j. j.id == k) (λ j. j.id == k) (λ j. if j.id == r.id then r else j)
        (λ j p. ground arith) jobs in
    omega (arith, same, u k)

map-fresh :
    (n : ℕ) (f : ScanJob → ScanJob)
    → ((j : ScanJob) → (f j).id ≡ j.id)
    → (jobs : List ScanJob) → All (λ j. j.id < n) jobs
    → All (λ j. j.id < n) (map f jobs)
map-fresh n f e [] h = tt
map-fresh n f e (j ∷ jobs) h = (omega (arith, e j), map-fresh n f e jobs h.1)

-- A row with a fresh id, and no active job of its image: the queue stays sound.
append-IsSound :
    (j : ScanJob) (jobs : List ScanJob)
    → any (active_for j.image_id) jobs ≡ false
    → IsSound jobs j.id
    → IsSound (jobs ++ j ∷ []) (j.id + 1)
append-IsSound j jobs free h = record {
  exclusive = λ k. ground (
    arith,
    length-filter_snoc (active_for k) jobs j,
    filter-any-false (active_for j.image_id) jobs free,
    h.exclusive k,
  );
  keyed = λ k. ground (
    arith,
    length-filter_snoc (λ i. i.id == k) jobs j,
    fresh_absent j.id jobs h.fresh,
    h.keyed k,
  );
  fresh =
      All-append (λ i. i.id < j.id + 1) jobs (j ∷ [])
        (All_imp _ _ jobs (λ i lt. omega arith) h.fresh) (omega arith);
}

-- A change of rows that keeps their ids and activates none keeps the queue sound.
map-IsSound :
    (f : ScanJob → ScanJob) (jobs : List ScanJob) (next : ℕ)
    → ((j : ScanJob) → (f j).id ≡ j.id)
    → ((k : ℕ) (j : ScanJob) → active_for k (f j) ≡ true → active_for k j ≡ true)
    → IsSound jobs next
    → IsSound (map f jobs) next
map-IsSound f jobs next same keeps h = record {
  exclusive = λ k.
      omega
        (arith, length-filter-map-le (active_for k) (active_for k) f (keeps k) jobs, h.exclusive k);
  keyed = λ k. omega (
    arith,
    length-filter-map-le (λ j. j.id == k) (λ j. j.id == k) f (λ j p. rw (← same j) p) jobs,
    h.keyed k,
  );
  fresh = map-fresh next f same jobs h.fresh;
}

next_grows : (jobs : List ScanJob) (n : ℕ) → IsSound jobs n → IsSound jobs (n + 1)
next_grows jobs n h = record {
  exclusive = h.exclusive;
  keyed = h.keyed;
  fresh = All_imp _ _ jobs (λ j lt. omega arith) h.fresh;
}

-- An enqueueing, whether it inserts a row or meets the image's active job: the queue stays sound,
-- with at most one active job for an image.
pub enqueue-IsQueueSound :
    (now : Clocks) (image_id priority : ℕ) (at : Option Time) (db : Db)
    → IsQueueSound db
    → IsQueueSound (enqueue now image_id priority at db).1
unfolding enqueue
enqueue-IsQueueSound now image_id priority at db h =
    elim (Bool-cases (any (active_for image_id) db.jobs)) [
      | inl e ↦ rw (e, enqueue) (next_grows db.jobs db.seq.next_job h)
      | inr e ↦ rw (e, enqueue) (append-IsSound _ db.jobs e h)
    ]

put_job-IsSound :
    (r : ScanJob) (jobs : List ScanJob) (next : ℕ)
    → clashes r jobs ≡ false
    → IsSound jobs next
    → IsSound (put_job r jobs) next
put_job-IsSound r jobs next c h = record {
  exclusive = put_job-IsExclusive r jobs c h.exclusive h.keyed;
  keyed = put_job-IsKeyed r jobs h.keyed;
  fresh = map-fresh next _ (λ j. ground arith) jobs h.fresh;
}

-- A flush of any changed job object, also one that raises: the queue stays sound, with at most one
-- active job for an image, distinct ids, and a sequence ahead of every id.
pub flush_job-IsQueueSound :
    (loaded new : ScanJob) (db : Db) → IsQueueSound db → IsQueueSound (flush_job loaded new db).1
unfolding flush_job
flush_job-IsQueueSound loaded new db h = elim (Option-cases (get_job new.id db.jobs)) [
  | inl e ↦ rw (e, flush_job) h
  | inr (row, e) ↦ elim (Bool-cases (clashes (merge_job loaded new row) db.jobs)) [
    | inl c ↦ rw (e, flush_job, c) h
    | inr c ↦ rw (e, flush_job, c) (put_job-IsSound _ db.jobs db.seq.next_job c h)
  ]
]

pub scalar_one_or_none_state :
    (found : List ScanJob) (db : Db) → (scalar_one_or_none found db).1 ≡ db
unfolding scalar_one_or_none
scalar_one_or_none_state [] db = refl
scalar_one_or_none_state (j ∷ []) db = refl
scalar_one_or_none_state (j ∷ k ∷ rest) db = refl

-- A promotion, whatever it finds: the queue stays sound.
pub promote-IsQueueSound :
    (now : Clocks) (image_id : ℕ) (db : Db)
    → IsQueueSound db
    → IsQueueSound (promote now image_id db).1
unfolding promote
promote-IsQueueSound now image_id db h =
    rw scalar_one_or_none_state
      (map-IsSound _ db.jobs db.seq.next_job (λ j. ground arith) (λ k j p. ground arith) h)

-- A claim: the queue stays sound.
pub claim-IsQueueSound :
    (locked : ℕ → Bool) (now : Clocks) (lease : ℕ) (db : Db)
    → IsQueueSound db
    → IsQueueSound (claim locked now lease db).1
unfolding claim
claim-IsQueueSound locked now lease db h =
    elim (Option-cases (first_row (filter (claimable locked now) db.jobs))) [
      | inl e ↦ rw (e, claim) h
      | inr (j, e) ↦
          rw
            (
              e,
              claim,
              state-then-pure (flush_job j (leased now lease j)) (λ _. some (leased now lease j))
                  db,
            )
            (flush_job-IsQueueSound j (leased now lease j) db h)
    ]

-- A reap: the queue stays sound.
pub reap_expired_leases-IsQueueSound :
    (now : Clocks) (max_attempts : ℕ) (db : Db)
    → IsQueueSound db
    → IsQueueSound (reap_expired_leases now max_attempts db).1
unfolding reap_expired_leases
reap_expired_leases-IsQueueSound now max_attempts db h =
    map-IsSound _ db.jobs db.seq.next_job (λ j. ground arith) (λ k j p. ground arith) h
