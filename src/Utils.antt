-- ===== src/Utils.antt =====
-- General helpers (src/pf_core/utils): the request throttle.
pub mod Throttle
mod Tests
