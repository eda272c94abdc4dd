-- ===== src/Registry.antt =====
-- app/registry: image references, and the resolution of a digest.
pub mod Reference
pub mod Digest
