-- ===== src/Pipeline.antt =====
-- The pipeline package (src/pf_core/pipeline): the phase sequencer, the invalidation of stage caches and
-- the comparison with a baseline.
pub mod Sequencer
pub mod Cascade
pub mod Baseline
