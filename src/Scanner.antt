-- ===== src/Scanner.antt =====
-- app/scanner: the reading of a Trivy report, its persistence, and the worker.
pub mod Json
pub mod Parser
pub mod Upsert
pub mod Sightings
pub mod Rollup
pub mod Persist
pub mod Worker
pub mod Trivy
