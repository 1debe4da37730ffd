-- ===== src/Web.antt =====
-- The web helpers (src/pf_core/web): pagination.
pub mod Pagination
mod Tests
