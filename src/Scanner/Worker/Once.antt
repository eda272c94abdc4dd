-- ===== src/Scanner/Worker/Once.antt =====
-- What one pass of a worker leaves behind (`run_once` of app/scanner/worker.py).
use echo_security_scanner.Base.{ℕ, ◌+◌, ◌<◌, ◌≡◌, ◌⊎◌, Bool, some}
use echo_security_scanner.Errors.{Exception, Result, ok, raise}
use echo_security_scanner.Domain.Models.{seconds, max_time, ScanJob}
use echo_security_scanner.Domain.Database.{Db, Session, put_job}
use echo_security_scanner.Jobs.Queue.{complete, overflow}
use echo_security_scanner.Scanner.Persist.Consistency.{IsConsistent}
use echo_security_scanner.Scanner.Worker.{Surroundings, execute_job}
use echo_security_scanner.Scanner.Worker.Settling.{IsCharged, asked_wait}

-- The tables of the scans' results are the same.
pub record HasSameResults (before after : Db) : Type 0 where
  pub findings : after.findings ≡ before.findings
  pub cves : after.cves ≡ before.cves
  pub packages : after.packages ≡ before.packages

-- What the execution of the job gives on a database that is committed: nothing, or an exception.
abbrev pub executed : Surroundings → ScanJob → Db → Result (Unit {0})
executed w job db = (execute_job w job (record { committed = db; current = db })).0

-- A job `job` of `db` was worked on, and its row is now `new`: all is committed, and no other job's row
-- changed. Either its execution went through, the job is completed, and the database is consistent; or
-- it was charged with the exception that its execution raised, and the results are the same.
pub record IsWorkedOff (w : Surroundings) (m : ℕ) (job new : ScanJob) (db : Db) (s : Session)
    : Type 0 where
  pub all_committed : s.committed ≡ s.current
  pub jobs : s.committed.jobs ≡ put_job new db.jobs
  pub results :
      ((executed w job db ≡ ok tt) × (new ≡ complete job) × IsConsistent s.committed)
      ⊎ ((e : Exception) × (executed w job db ≡ raise e)
          × IsCharged m w.settling.wall job e new
          × HasSameResults db s.committed)

-- The execution of the job raised an exception that asks for a wait beyond the year 9999, and the
-- pass raised an OverflowError; what is committed is still `db`.
abbrev pub IsOverflown : Surroundings → ScanJob → Db → Result Bool × Session → Type 0
IsOverflown w job db out =
    ((e : Exception) × (d : ℕ) × (executed w job db ≡ raise e)
      × (asked_wait e ≡ some d)
      × (max_time < w.settling.wall + seconds d))
    × (out.0 ≡ raise overflow)
    × (out.1.committed ≡ db)
