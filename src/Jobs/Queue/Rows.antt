-- ===== src/Jobs/Queue/Rows.antt =====
-- The flush of a job object that holds what its row held: the row becomes the object
-- (app/jobs/queue.py, with the session of app/scanner/worker.py).
use echo_security_scanner.Base.{
  ℕ, ◌≤◌, ◌≡◌, refl, Bool, true, false, not, ◌&&◌, Option, none, some, List, [], ◌∷◌, arith, ◌==◌,
  length, filter, any, In, here, there, text_eq, text_eq_iff, ==_iff, ==_refl, Text,
}
use echo_security_scanner.Errors.{ok}
use echo_security_scanner.Domain.Models.{JobStatus, ScanJob, is_active}
use echo_security_scanner.Domain.Database.{
  Db, flush_job, merge_job, clashes, get_job, put_job, changed, option_eq, status_eq,
}
use echo_security_scanner.Jobs.Queue.{active_for}
use echo_security_scanner.Jobs.Queue.Exclusion.{IsQueueSound}

module _ {ℓ} {A : Type ℓ} where
  -- An element that passes the test is counted.
  pub In-filter-le :
      (p : A → Bool) {a : A} (xs : List A) → In a xs → p a ≡ true → 1 ≤ length (filter p xs)
  In-filter-le p [] m h = elim m [ ]
  In-filter-le p (x ∷ xs) here h = rw h (omega arith)
  In-filter-le p (x ∷ xs) (there m) h = ground (arith, In-filter-le p xs m h)

  -- Where nothing passes a test, nothing passes a narrower one.
  pub any-filter-empty :
      (p q : A → Bool) (xs : List A)
      → ((a : A) → q a ≡ true → p a ≡ true)
      → length (filter p xs) ≤ 0
      → any q xs ≡ false
  any-filter-empty p q [] f h = refl
  any-filter-empty p q (x ∷ xs) f h = ground (arith, f x, any-filter-empty p q xs f)

  pub option_eq_sound :
      (eq : A → A → Bool)
      → ((a b : A) → eq a b ≡ true → a ≡ b)
      → (a b : Option A) → option_eq eq a b ≡ true
      → a ≡ b
  option_eq_sound eq f none none h = refl
  option_eq_sound eq f none (some b) h = cc
  option_eq_sound eq f (some a) none h = cc
  option_eq_sound eq f (some a) (some b) h = cc (f a b h)

  changed_self :
      (eq : A → A → Bool) → ((a b : A) → eq a b ≡ true → a ≡ b) → (a b : A) → changed eq a b a ≡ b
  changed_self eq f a b = ground (arith, f a b)

status_eq_sound : (a b : JobStatus) → status_eq a b ≡ true → a ≡ b
status_eq_sound a b h = ground arith

nat_eq_sound : (a b : ℕ) → (a == b) ≡ true → a ≡ b
nat_eq_sound a b = (==_iff a b).0

pub text_eq_sound : (a b : Text) → text_eq a b ≡ true → a ≡ b
text_eq_sound a b = (text_eq_iff a b).0

-- The object keeps what no operation of the queue on an object changes.
pub record SameKey (j new : ScanJob) : Type 0 where
  pub id : new.id ≡ j.id
  pub image_id : new.image_id ≡ j.image_id
  pub priority : new.priority ≡ j.priority
  pub created_at : new.created_at ≡ j.created_at

pub merge_job_self : (j new : ScanJob) → SameKey j new → merge_job j new j ≡ new
unfolding merge_job
merge_job_self j new same = ground (
  arith,
  changed_self status_eq status_eq_sound j.status new.status,
  changed_self (option_eq ◌==◌) (option_eq_sound ◌==◌ nat_eq_sound) j.lease_until new.lease_until,
  changed_self (option_eq text_eq) (option_eq_sound text_eq text_eq_sound) j.last_error
      new.last_error,
)

pub get_job_unique :
    (j : ScanJob) (jobs : List ScanJob)
    → In j jobs
    → length (filter (λ i. i.id == j.id) jobs) ≤ 1
    → get_job j.id jobs ≡ some j
get_job_unique j [] m u = elim m [ ]
get_job_unique j (x ∷ jobs) here u = ground arith
get_job_unique j (x ∷ jobs) (there m) u =
    ground (arith, In-filter-le (λ i. i.id == j.id) jobs m (==_refl j.id), get_job_unique j jobs m)

no_clash :
    (j new : ScanJob) (jobs : List ScanJob)
    → In j jobs
    → SameKey j new
    → is_active j.status ≡ true
    → length (filter (active_for j.image_id) jobs) ≤ 1
    → clashes new jobs ≡ false
no_clash j new [] m same act e = elim m [ ]
no_clash j new (x ∷ jobs) here same act e = ground (
  arith,
  any-filter-empty (active_for j.image_id)
      (λ i. not (i.id == new.id) && i.image_id == new.image_id && is_active i.status) jobs
      (λ a h. ground arith),
)
no_clash j new (x ∷ jobs) (there m) same act e = ground (
  arith,
  In-filter-le (active_for j.image_id) jobs m,
  no_clash j new jobs m same act,
  ==_refl j.image_id,
)

-- The flush of a job that was active: the row is the object, and nothing else changes.
pub flush_job_lem :
    (j new : ScanJob) (db : Db)
    → IsQueueSound db
    → In j db.jobs
    → SameKey j new
    → is_active j.status ≡ true
    → flush_job j new db ≡ (ok tt, record db { jobs = put_job new db.jobs })
unfolding flush_job
flush_job_lem j new db sound m same act =
    let found : get_job new.id db.jobs ≡ some j =
      rw same.id (get_job_unique j db.jobs m (sound.keyed j.id)) in
    rw (
      found,
      flush_job,
      merge_job_self j new same,
      no_clash j new db.jobs m same act (sound.exclusive j.image_id),
    )
