-- ===== src/Lib.antt =====
-- The echo security scanner: it scans container images for known vulnerabilities.
--
-- A scheduler (app/scheduler) enqueues the images that are due into a table of jobs (app/jobs).
-- Workers (app/scanner/worker.py) claim a job, resolve the image's digest at its registry
-- (app/registry), run Trivy, read its report (app/scanner/parser.py), and record the outcome
-- (app/scanner/persist.py): a run, the packages, the CVEs, the findings, and the columns of a CVE
-- that are derived from the current findings. All processes share one PostgreSQL database.
--
-- The files:
-- - Base and its children: what the modules share. Text is Python's `str` as a list of code points;
--   Base/Float computes `int(total_seconds() * 1000)` in exact binary64 arithmetic.
-- - Errors: the exceptions, and the monad of a step on a state that may raise.
-- - Domain/Models, Domain/Severity: app/domain. A record for each table's row; a time is a number of
--   microseconds.
-- - Domain/Database: the tables together, the flush of a changed job or image with the partial unique
--   index `uq_scan_job_active`, and a session with its commit and rollback.
-- - Config: app/config.py, the settings that the modelled code reads.
-- - Jobs/Queue: app/jobs/queue.py, a function for each function there (`enqueue`, `promote`, `claim`,
--   `complete`, `fail`, `defer`, `reap_expired_leases`). Its children hold what is proved of them.
-- - Registry/Reference, Registry/Digest: app/registry/digest.py, the parsing of a reference and the
--   resolution of its digest.
-- - Scanner/Json, Scanner/Parser: app/scanner/parser.py, over the values that `json.loads` returns.
-- - Scanner/Upsert, Scanner/Sightings, Scanner/Rollup, Scanner/Persist: app/scanner/persist.py, in the
--   order of its functions, `record_success`, `record_skip` and `record_failure` last.
-- - Scanner/Worker: app/scanner/worker.py, from `_last_successful_run` to `run_once`, and one round of
--   the loop of `main`. The log lines are left out.
-- - Scanner/Trivy: app/scanner/trivy.py, with `_run` as `run_trivy`.
-- - Api/Params, Api/Requests: `page_params` and `severity_filter` of app/api/deps.py, `request_scan` of
--   app/api/routes/images.py.
-- - Api/Schemas: the response models of app/api/schemas.py.
-- - Api/Images, Api/Cves: the listings of app/api/routes/images.py and app/api/routes/cves.py.
-- - Api/Freshness: `apply_freshness` of app/api/deps.py.
-- - Api/Stats: `stats` of app/api/routes/stats.py.
-- - Api/Health: `health` of app/api/routes/health.py.
-- - Obs: `bound` and `bind` of app/obs/logging.py with the level below which lines
--   are dropped, and `request_context` of app/api/middleware.py.
-- - Seed: `seed` of app/db/seed.py.
-- - Migrations: app/db/migrations/versions/0001_initial_schema.py, the schema's tables and indexes, its
--   `upgrade` and `downgrade` as lists of statements; Migrations/Frame for what is proved of them.
-- - Scheduler: app/scheduler/scheduler.py, from `next_due_at` to `tick`.
-- - Scheduler/Replicas: the loop of its `main`, for several replicas, with `try_scheduler_lock` and
--   `release_scheduler_lock` of app/jobs/queue.py.
-- - Examples, Scanner/Parser/SmallReport: the theorems at concrete data.
--
-- A table is the list of its rows in the order in which a statement meets them; an SQL statement
-- is a function on the tables, and one transaction runs at a time, except that `claim` passes
-- over the rows that another transaction has locked. A function gets the moments that it reads
-- from a clock as arguments. `json.loads`, `datetime.fromisoformat`, the registry's and Trivy's
-- answers are parameters, and so are the subprocess, the hash and the metadata file in
-- Scanner/Trivy, and the HTTP exchange, the regular expression and the reading of numbers and
-- dates in Registry/Digest. The order of texts in an ORDER BY is a parameter too, the database's
-- collation. Where a paged ORDER BY leaves ties, the order in which each request meets the rows is a
-- parameter; other statements take tied rows in the order of the table. Floating-point figures of the
-- statistics, and the advisory locks of the database, are parameters. Every loop is over a list or
-- a text, so no fuel is needed, but for two: the digits of a number n have the fuel n + 1, and the
-- exponent in Base/Float has 80, which its comment justifies.
--
-- A moment is unbounded, except where `defer` adds a registry's Retry-After: there the year 9999 ends
-- what a `datetime` can hold. The seconds of the settings (lease, backoff) are taken to keep below it.
-- `ScanRun.completed_at` may be NULL in the schema, but every run that the program writes has one.
-- A moment before 1970 has the stamp 0 in Api/Freshness. The texts that a column of bounded length
-- would refuse are not told apart.
--
-- Not modelled: the format of log lines and what the other parts log, signals and sleeping, connection
-- handling, and the scripts that check a deployment.
pub mod Base
pub mod Errors
pub mod Domain
pub mod Jobs
pub mod Config
pub mod Registry
pub mod Scanner
pub mod Scheduler
pub mod Api
pub mod Seed
mod Examples
pub mod Migrations
pub mod Obs
