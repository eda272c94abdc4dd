-- ===== src/Jobs/Queue/Claiming.antt =====
-- Which job `claim` takes (app/jobs/queue.py).
use echo_security_scanner.Base.{
  ℕ, ◌≤◌, ◌<◌, ◌≡◌, refl, ◌⊎◌, inl, inr, Bool, true, false, none, some, List, [], ◌∷◌, arith,
  filter, All, In, here, there, Bool-cases, filter_keeps,
}
use echo_security_scanner.Errors.{ok}
use echo_security_scanner.Domain.Models.{JobStatus, ScanJob}
use echo_security_scanner.Domain.Database.{Db, put_job}
use echo_security_scanner.Jobs.Queue.{Clocks, goes_before, first_row, claimable, leased, claim}
use echo_security_scanner.Jobs.Queue.Exclusion.{IsQueueSound}
use echo_security_scanner.Jobs.Queue.Rows.{flush_job_lem}

goes_before_trans :
    (a b c : ScanJob) → goes_before a b ≡ false → goes_before b c ≡ false → goes_before a c ≡ false
goes_before_trans a b c h k = ground arith

goes_before_asymm : (a b : ScanJob) → goes_before a b ≡ true → goes_before b a ≡ false
goes_before_asymm a b h = ground arith

goes_before_irrefl : (a : ScanJob) → goes_before a a ≡ false
goes_before_irrefl a = ground arith

-- No row of the list goes before `j`.
abbrev pub IsFirst : ScanJob → List ScanJob → Type 0
IsFirst j rows = All (λ k. goes_before k j ≡ false) rows

IsFirst-trans :
    (j k : ScanJob) (rows : List ScanJob)
    → goes_before k j ≡ false
    → IsFirst k rows
    → IsFirst j rows
IsFirst-trans j k [] h f = tt
IsFirst-trans j k (x ∷ rows) h f = (goes_before_trans x k j f.0 h, IsFirst-trans j k rows h f.1)

-- The first row is there unless there is none, and no other goes before it.
first_row-cases :
    (rows : List ScanJob)
    → ((first_row rows ≡ none) × (rows ≡ []))
      ⊎ ((j : ScanJob) × (first_row rows ≡ some j) × In j rows × IsFirst j rows)
unfolding first_row
first_row-cases [] = inl (refl, refl)
first_row-cases (x ∷ rows) = elim (first_row-cases rows) [
  | inl (e, n) ↦ inr (x, rw (e, first_row), here, (goes_before_irrefl x, rw n tt))
  | inr (k, e, m, f) ↦ elim (Bool-cases (goes_before k x)) [
    | inl b ↦ inr (k, rw (e, first_row, b), there m, (goes_before_asymm k x b, f))
    | inr b ↦
        inr (x, rw (e, first_row, b), here, (goes_before_irrefl x, IsFirst-trans x k rows b f))
  ]
]

-- A worker may take the job: it is pending, its time has come, and no other transaction holds it.
pub record IsTakeable (locked : ℕ → Bool) (now : Clocks) (j : ScanJob) : Type 0 where
  pub pending : j.status ≡ JobStatus.pending
  pub due : j.scheduled_for ≤ now.statement
  pub free : locked j.id ≡ false

-- A higher priority, or the same and no later due time.
abbrev pub IsAhead : ScanJob → ScanJob → Type 0
IsAhead j k =
    (k.priority < j.priority) ⊎ ((k.priority ≡ j.priority) × (j.scheduled_for ≤ k.scheduled_for))

is_ahead : (j k : ScanJob) → goes_before k j ≡ false → IsAhead j k
is_ahead j k h = ground arith

takeable :
    (locked : ℕ → Bool) (now : Clocks) (j : ScanJob)
    → claimable locked now j ≡ true
    → IsTakeable locked now j
takeable locked now j h = ground arith

claimable_of :
    (locked : ℕ → Bool) (now : Clocks) (j : ScanJob)
    → IsTakeable locked now j
    → claimable locked now j ≡ true
claimable_of locked now j h = ground arith

IsFirst-IsAhead :
    (locked : ℕ → Bool) (now : Clocks) (j : ScanJob) (rows : List ScanJob)
    → IsFirst j (filter (claimable locked now) rows)
    → All (λ k. IsTakeable locked now k → IsAhead j k) rows
IsFirst-IsAhead locked now j [] f = tt
IsFirst-IsAhead locked now j (x ∷ rows) f = elim (Bool-cases (claimable locked now x)) [
  | inl e ↦
      let g : IsFirst j (x ∷ filter (claimable locked now) rows) = rw e at f in
      (λ _. is_ahead j x g.0, IsFirst-IsAhead locked now j rows g.1)
  | inr e ↦
      let g : IsFirst j (filter (claimable locked now) rows) = rw e at f in
      (λ t. absurd (cc (e, claimable_of locked now x t)), IsFirst-IsAhead locked now j rows g)
]

none-IsTakeable :
    (locked : ℕ → Bool) (now : Clocks) (rows : List ScanJob)
    → filter (claimable locked now) rows ≡ []
    → All (λ k. ¬ IsTakeable locked now k) rows
none-IsTakeable locked now [] e = tt
none-IsTakeable locked now (x ∷ rows) e = elim (Bool-cases (claimable locked now x)) [
  | inl t ↦ absurd (cc (rw t at e))
  | inr n ↦ (
    λ t. absurd (cc (n, claimable_of locked now x t)),
    none-IsTakeable locked now rows (rw n at e),
  )
]

-- On a sound queue a claim never raises. Either no row is pending, due and free of locks, and
-- nothing changes; or one such row is leased, ahead of which no other such row is by priority and
-- then by due time, and every other row stays as it was.
pub claim_exact :
    (locked : ℕ → Bool) (now : Clocks) (lease : ℕ) (db : Db)
    → IsQueueSound db
    → (All (λ k. ¬ IsTakeable locked now k) db.jobs × (claim locked now lease db ≡ (ok none, db)))
      ⊎ ((j : ScanJob) × In j db.jobs
          × IsTakeable locked now j
          × All (λ k. IsTakeable locked now k → IsAhead j k) db.jobs
          × (claim locked now lease db ≡ (
            ok (some (leased now lease j)),
            record db { jobs = put_job (leased now lease j) db.jobs },
          )))
unfolding claim
claim_exact locked now lease db sound =
    elim (first_row-cases (filter (claimable locked now) db.jobs)) [
      | inl (e, n) ↦ inl (none-IsTakeable locked now db.jobs n, rw (e, claim))
      | inr (j, e, m, f) ↦
          let kept = filter_keeps (claimable locked now) db.jobs m in
          let flushed =
            flush_job_lem j (leased now lease j) db sound kept.0
              (record { id = refl; image_id = refl; priority = refl; created_at = refl })
              (ground arith) in
          inr (
            j,
            kept.0,
            takeable locked now j kept.1,
            IsFirst-IsAhead locked now j db.jobs f,
            rw (e, claim, flushed),
          )
    ]
