-- ===== src/Domain.antt =====
-- app/domain: the severity vocabulary, the tables, and the database that holds them.
pub mod Severity
pub mod Models
pub mod Database
