-- ===== src/Jobs.antt =====
-- app/jobs: the queue of scan jobs.
pub mod Queue
