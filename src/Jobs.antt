-- ===== src/Jobs.antt =====
-- The jobs package (src/pf_core/jobs): kinds, tables, repository, worker claims, runtime, submitter.
pub mod Registry
pub mod Schema
pub mod Steps
pub mod Repo
pub mod Worker
pub mod Runtime
pub mod Submit
pub mod Workers
pub mod Invariant
pub mod History
mod Tests
