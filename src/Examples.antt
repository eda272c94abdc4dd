-- ===== src/Examples.antt =====
-- Concrete runs of the theorems: app/jobs, app/scanner, app/scheduler, app/registry, app/domain.
mod Queue
mod Scans
mod Values
mod Settled
mod Outside
mod Registries
mod Listings
mod Ties
mod Ticks
mod Statistics
mod Visits
mod Replicas
mod Schemas
mod Passes
mod Requests
