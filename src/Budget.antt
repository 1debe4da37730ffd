-- ===== src/Budget.antt =====
-- The budget package (src/pf_core/budget): periods, usage and snapshots, the guard.
pub mod Period
pub mod Usage
pub mod Guard
pub mod Sync
mod Tests
