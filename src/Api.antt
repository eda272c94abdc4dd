-- ===== src/Api.antt =====
-- app/api: the query parameters, the request of a scan, and the listings.
pub mod Schemas
pub mod Params
pub mod Requests
pub mod Images
pub mod Cves
pub mod Freshness
pub mod Stats
pub mod Health
