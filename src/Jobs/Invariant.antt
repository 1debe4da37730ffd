-- ===== src/Jobs/Invariant.antt =====
-- A well-formedness predicate on the tables of src/pf_core/jobs/_schema.py.
pub mod Pieces
pub mod Ops
use pf_core.Prelude.{
  ℕ, ◌≤◌, ◌≡◌, Bool, true, not, ◌&&◌, Option, none, List, arith, leb, ltb, ◌==◌, All, if◌then◌else◌,
}
use pf_core.Sql.Sorted.{IsSorted}
use pf_core.Sql.Keys.{IsKeyed, has}
use pf_core.Jobs.Registry.{is_terminal}
use pf_core.Jobs.Schema.{JobRow, StepRow, EventRow, Db, is_null}

-- A priority is at most 100; a job is claimed exactly while its lease has a start; a terminal job
-- is not claimed.
pub record RowIsValid (r : JobRow) : Type 0 where
  pub priority_le : r.priority ≤ 100
  pub claim_pair : is_null r.claimed_by ≡ is_null r.claimed_at
  pub terminal_unclaimed : is_terminal r.status ≡ true → is_null r.claimed_by ≡ true

-- steps of one job ascend in `step_index`
abbrev pub index_before : StepRow → StepRow → Bool
index_before s t = if s.job_id == t.job_id then ltb s.step_index t.step_index else true

abbrev pub job_key : JobRow → ℕ
job_key r = r.id

abbrev pub step_key : StepRow → ℕ
step_key r = r.id

abbrev pub event_key : EventRow → ℕ
event_key r = r.id

pub record IsValid (db : Db) : Type 0 where
  pub rows : All RowIsValid db.jobs
  pub job_ids : IsKeyed job_key db.next_job db.jobs
  pub step_ids : IsKeyed step_key db.next_step db.steps
  pub event_ids : IsKeyed event_key db.next_event db.events
  pub step_order : IsSorted index_before db.steps
  pub step_jobs : All (λ (s : StepRow). has job_key s.job_id db.jobs ≡ true) db.steps
  pub event_jobs : All (λ (e : EventRow). has job_key e.job_id db.jobs ≡ true) db.events
