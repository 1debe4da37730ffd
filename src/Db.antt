-- ===== src/Db.antt =====
-- The database helpers (src/pf_core/db): versioned configuration rows and soft deletion.
pub mod VersionedConfig
pub mod SoftDelete
mod Tests
