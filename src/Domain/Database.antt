-- ===== src/Domain/Database.antt =====
-- The tables together, and what the session's unit of work does with a changed object. A table is
-- the list of its rows in the order in which a statement meets them.
use echo_security_scanner.Base.{
  ℕ, Bool, true, false, not, ◌&&◌, Option, none, some, List, map, codes, text_eq, ◌==◌,
  if◌then◌else◌, any, find?,
}
use echo_security_scanner.Errors.{integrity_error, stale_data, ok, raise, Exec}
use echo_security_scanner.Domain.Models.{
  JobStatus, RunStatus, Image, ScanJob, ScanRun, Package, Cve, Finding, is_active,
}

-- The next value of each table's id sequence. A rollback does not turn a sequence back.
pub record Sequences : Type 0 where
  pub next_job : ℕ
  pub next_run : ℕ
  pub next_package : ℕ
  pub next_finding : ℕ

pub record Db : Type 0 where
  pub images : List Image
  pub jobs : List ScanJob
  pub runs : List ScanRun
  pub packages : List Package
  pub cves : List Cve
  pub findings : List Finding
  pub seq : Sequences

-- `session.get(Image, id)` and `session.get(ScanJob, id)`
abbrev pub get_image : ℕ → List Image → Option Image
get_image k images = find? (λ i. i.id == k) images

abbrev pub get_job : ℕ → List ScanJob → Option ScanJob
get_job k jobs = find? (λ j. j.id == k) jobs

abbrev pub option_eq {ℓ} : {A : Type ℓ} → (A → A → Bool) → Option A → Option A → Bool
option_eq eq none none = true
option_eq eq none (some _) = false
option_eq eq (some _) none = false
option_eq eq (some a) (some b) = eq a b

abbrev pub status_eq : JobStatus → JobStatus → Bool
status_eq JobStatus.pending JobStatus.pending = true
status_eq JobStatus.running JobStatus.running = true
status_eq JobStatus.done JobStatus.done = true
status_eq JobStatus.failed JobStatus.failed = true
status_eq _ _ = false

abbrev pub run_status_eq : RunStatus → RunStatus → Bool
run_status_eq RunStatus.success RunStatus.success = true
run_status_eq RunStatus.failed RunStatus.failed = true
run_status_eq RunStatus.skipped RunStatus.skipped = true
run_status_eq _ _ = false

-- An UPDATE sets an attribute only where the object's value differs from the one that it was
-- loaded with; another transaction's write to any other attribute stays.
abbrev pub changed {ℓ} : {A : Type ℓ} → (A → A → Bool) → A → A → A → A
changed eq loaded new row = if eq loaded new then row else new

unfoldable pub merge_job : ScanJob → ScanJob → ScanJob → ScanJob
merge_job loaded new row = record row {
  status = changed status_eq loaded.status new.status row.status;
  scheduled_for = changed ◌==◌ loaded.scheduled_for new.scheduled_for row.scheduled_for;
  lease_until = changed (option_eq ◌==◌) loaded.lease_until new.lease_until row.lease_until;
  attempts = changed ◌==◌ loaded.attempts new.attempts row.attempts;
  last_error = changed (option_eq text_eq) loaded.last_error new.last_error row.last_error;
}

unfoldable pub merge_image : Image → Image → Image → Image
merge_image loaded new row = record row {
  current_scan_run_id =
      changed (option_eq ◌==◌) loaded.current_scan_run_id new.current_scan_run_id
        row.current_scan_run_id;
  consecutive_failures =
      changed ◌==◌ loaded.consecutive_failures new.consecutive_failures row.consecutive_failures;
  last_scan_at = changed (option_eq ◌==◌) loaded.last_scan_at new.last_scan_at row.last_scan_at;
  last_scan_status =
      changed (option_eq run_status_eq) loaded.last_scan_status new.last_scan_status
        row.last_scan_status;
}

-- Another active job of the same image: what `uq_scan_job_active` forbids.
abbrev pub clashes : ScanJob → List ScanJob → Bool
clashes job jobs =
    is_active job.status
    && any (λ j. not (j.id == job.id) && j.image_id == job.image_id && is_active j.status) jobs

abbrev pub put_job : ScanJob → List ScanJob → List ScanJob
put_job job jobs = map (λ j. if j.id == job.id then job else j) jobs

abbrev pub put_image : Image → List Image → List Image
put_image image images = map (λ i. if i.id == image.id then image else i) images

-- The flush of a job object: `loaded` is what it held when it was read, `new` what it holds now.
unfoldable pub flush_job : ScanJob → ScanJob → Exec Db (Unit {0})
flush_job loaded new db = elim (get_job new.id db.jobs) [
  | none ↦ (raise stale_data, db)
  | some row ↦
      let row' = merge_job loaded new row in
      if clashes row' db.jobs
      then (raise (integrity_error (codes "uq_scan_job_active")), db)
      else (ok tt, record db { jobs = put_job row' db.jobs })
]

unfoldable pub flush_image : Image → Image → Exec Db (Unit {0})
flush_image loaded new db = elim (get_image new.id db.images) [
  | none ↦ (raise stale_data, db)
  | some row ↦ (ok tt, record db { images = put_image (merge_image loaded new row) db.images })
]

-- A session: the database as the last commit left it, and as this transaction sees it.
pub record Session : Type 0 where
  pub committed : Db
  pub current : Db

unfoldable pub commit : Exec Session (Unit {0})
commit s = (ok tt, record s { committed = s.current })

unfoldable pub rollback : Exec Session (Unit {0})
rollback s = (ok tt, record s { current = record s.committed { seq = s.current.seq } })

-- A statement on the database, run in the session's transaction.
abbrev pub execute : {A : Type 0} → Exec Db A → Exec Session A
execute m s = let (r, db) = m s.current in (r, record s { current = db })
