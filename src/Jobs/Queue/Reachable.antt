-- ===== src/Jobs/Queue/Reachable.antt =====
-- What the queue's table may become by the operations on it, in transactions of one session after
-- the other (app/jobs/queue.py, the flushes of app/scanner/worker.py).
use echo_security_scanner.Base.{
  ℕ, ◌≤◌, ◌<◌, ◌≡◌, refl, Bool, Option, some, List, arith, filter, All_imp, Option-cases,
  Bool-cases, inl, inr, any,
}
use echo_security_scanner.Errors.{state-then-pure}
use echo_security_scanner.Domain.Models.{Time, ScanJob}
use echo_security_scanner.Domain.Database.{
  Db, Session, flush_job, get_job, commit, rollback, clashes, merge_job,
}
use echo_security_scanner.Jobs.Queue.{
  Clocks, active_for, enqueue, promote, claim, reap_expired_leases, first_row, claimable, leased,
}
use echo_security_scanner.Jobs.Queue.Exclusion.{
  IsSound, IsQueueSound, enqueue-IsQueueSound, promote-IsQueueSound, claim-IsQueueSound,
  reap_expired_leases-IsQueueSound, flush_job-IsQueueSound, scalar_one_or_none_state,
}

-- A statement on the table, or the flush of a job object.
pub data Operation : Type 0 where
  enqueues : Clocks → ℕ → ℕ → Option Time → Operation
  promotes : Clocks → ℕ → Operation
  claims : (ℕ → Bool) → Clocks → ℕ → Operation
  reaps : Clocks → ℕ → Operation
  flushes : ScanJob → ScanJob → Operation

-- The tables after it, whether it raised or not.
abbrev pub operate : Operation → Db → Db
operate (enqueues now image_id priority scheduled_for) db =
    (enqueue now image_id priority scheduled_for db).1
operate (promotes now image_id) db = (promote now image_id db).1
operate (claims locked now lease) db = (claim locked now lease db).1
operate (reaps now max_attempts) db = (reap_expired_leases now max_attempts db).1
operate (flushes loaded new) db = (flush_job loaded new db).1

-- One step of a session.
pub data Step : Session → Session → Type 0 where
  operates : (o : Operation) (s : Session) → Step s (record s { current = operate o s.current })
  commits : (s : Session) → Step s (commit s).1
  rolls_back : (s : Session) → Step s (rollback s).1

-- Any number of steps.
pub data Steps : Session → Session → Type 0 where
  done : (s : Session) → Steps s s
  next : {s t u : Session} → Step s t → Steps t u → Steps s u

-- Both what is committed and what the transaction sees are sound, by the one sequence of ids.
pub record IsSoundSession (s : Session) : Type 0 where
  pub current : IsQueueSound s.current
  pub committed : IsSound s.committed.jobs s.current.seq.next_job

operate-IsQueueSound : (o : Operation) (db : Db) → IsQueueSound db → IsQueueSound (operate o db)
operate-IsQueueSound (enqueues now i p at) db h = enqueue-IsQueueSound now i p at db h
operate-IsQueueSound (promotes now i) db h = promote-IsQueueSound now i db h
operate-IsQueueSound (claims locked now lease) db h = claim-IsQueueSound locked now lease db h
operate-IsQueueSound (reaps now n) db h = reap_expired_leases-IsQueueSound now n db h
operate-IsQueueSound (flushes loaded new) db h = flush_job-IsQueueSound loaded new db h

flush_job_sequence :
    (loaded new : ScanJob) (db : Db) → (flush_job loaded new db).1.seq.next_job ≡ db.seq.next_job
unfolding flush_job
flush_job_sequence loaded new db = elim (Option-cases (get_job new.id db.jobs)) [
  | inl e ↦ rw (e, flush_job) refl
  | inr (row, e) ↦ elim (Bool-cases (clashes (merge_job loaded new row) db.jobs)) [
    | inl c ↦ rw (e, flush_job, c) refl
    | inr c ↦ rw (e, flush_job, c) refl
  ]
]

claim_sequence :
    (locked : ℕ → Bool) (now : Clocks) (lease : ℕ) (db : Db)
    → (claim locked now lease db).1.seq.next_job ≡ db.seq.next_job
unfolding claim
claim_sequence locked now lease db =
    elim (Option-cases (first_row (filter (claimable locked now) db.jobs))) [
      | inl e ↦ rw (e, claim) refl
      | inr (j, e) ↦
          rw
            (
              e,
              claim,
              state-then-pure (flush_job j (leased now lease j)) (λ _. some (leased now lease j))
                  db,
            )
            (flush_job_sequence j (leased now lease j) db)
    ]

enqueue_sequence :
    (now : Clocks) (i p : ℕ) (at : Option Time) (db : Db)
    → db.seq.next_job ≤ (enqueue now i p at db).1.seq.next_job
unfolding enqueue
enqueue_sequence now i p at db = elim (Bool-cases (any (active_for i) db.jobs)) [
  | inl e ↦ rw (e, enqueue) (omega arith)
  | inr e ↦ rw (e, enqueue) (omega arith)
]

promote_sequence :
    (now : Clocks) (i : ℕ) (db : Db) → (promote now i db).1.seq.next_job ≡ db.seq.next_job
unfolding promote
promote_sequence now i db = rw scalar_one_or_none_state refl

-- The sequence never goes back.
operate_sequence : (o : Operation) (db : Db) → db.seq.next_job ≤ (operate o db).seq.next_job
unfolding reap_expired_leases
operate_sequence (enqueues now i p at) db = enqueue_sequence now i p at db
operate_sequence (promotes now i) db = omega (arith, promote_sequence now i db)
operate_sequence (claims locked now lease) db = omega (arith, claim_sequence locked now lease db)
operate_sequence (reaps now n) db = omega arith
operate_sequence (flushes loaded new) db = omega (arith, flush_job_sequence loaded new db)

IsSound-later : (jobs : List ScanJob) (m n : ℕ) → IsSound jobs m → m ≤ n → IsSound jobs n
IsSound-later jobs m n h le = record {
  exclusive = h.exclusive;
  keyed = h.keyed;
  fresh = All_imp (λ j. j.id < m) (λ j. j.id < n) jobs (λ j k. omega arith) h.fresh;
}

Step-IsSoundSession : {s t : Session} → Step s t → IsSoundSession s → IsSoundSession t
unfolding commit rollback
Step-IsSoundSession (operates o s) h = record {
  current = operate-IsQueueSound o s.current h.current;
  committed =
      IsSound-later s.committed.jobs s.current.seq.next_job (operate o s.current).seq.next_job
        h.committed (operate_sequence o s.current);
}
Step-IsSoundSession (commits s) h = record { current = h.current; committed = h.current }
Step-IsSoundSession (rolls_back s) h = record { current = h.committed; committed = h.committed }

-- Whatever the operations on the queue, in whatever order, with commits and rollbacks between them, and
-- also where one raises: what is committed and what the transaction sees keep at most one active job
-- for an image, distinct ids, and a sequence that is ahead of every id.
pub Steps-IsSoundSession : {s t : Session} → Steps s t → IsSoundSession s → IsSoundSession t
Steps-IsSoundSession (done s) h = h
Steps-IsSoundSession (next step rest) h = Steps-IsSoundSession rest (Step-IsSoundSession step h)
