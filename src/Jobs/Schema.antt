-- ===== src/Jobs/Schema.antt =====
-- src/pf_core/jobs/_schema.py: the tables `jobs`, `job_steps` and `job_events`. A timestamp is a
-- number of microseconds in the server's clock, a JSON column its text. Ids come from the tables'
-- counters; foreign keys are enforced, with the ON DELETE actions that the schema declares.
use pf_core.Prelude.{
  ℕ, ◌+◌, ◌*◌, String, Bool, true, false, Option, none, some, List, [], ltb, ◌==◌,
}

pub record JobRow : Type 0 where
  pub id : ℕ
  pub kind : String
  pub parent_job_id : Option ℕ
  pub status : String
  pub progress_total : Option ℕ
  pub progress_current : ℕ
  pub current_step : Option String
  pub inputs : Option String
  pub outputs : Option String
  pub error : Option String
  pub error_class : Option String
  pub priority : ℕ
  pub claimed_by : Option String
  pub claimed_at : Option ℕ
  pub started_at : Option ℕ
  pub finished_at : Option ℕ
  pub created_by : Option String
  pub created_at : ℕ
  pub updated_at : ℕ

pub record StepRow : Type 0 where
  pub id : ℕ
  pub job_id : ℕ
  pub step_index : ℕ
  pub name : String
  pub status : String
  pub inputs : Option String
  pub outputs : Option String
  pub error : Option String
  pub started_at : ℕ
  pub finished_at : Option ℕ
  pub duration_ms : Option ℕ

pub record EventRow : Type 0 where
  pub id : ℕ
  pub job_id : ℕ
  pub event_type : String
  pub message : String
  pub context : Option String
  pub created_at : ℕ

-- The database, and the server's clock at the statement that runs.
pub record Db : Type 0 where
  pub now : ℕ
  pub jobs : List JobRow
  pub steps : List StepRow
  pub events : List EventRow
  pub next_job : ℕ
  pub next_step : ℕ
  pub next_event : ℕ

abbrev pub empty : Db
empty = record {
  now = 0;
  jobs = [];
  steps = [];
  events = [];
  next_job = 1;
  next_step = 1;
  next_event = 1;
}

-- WHERE jobs.id = i
abbrev pub job_is : ℕ → JobRow → Bool
job_is i r = r.id == i

abbrev pub step_is : ℕ → StepRow → Bool
step_is i r = r.id == i

abbrev pub is_null {ℓ} : {A : Type ℓ} → Option A → Bool
is_null none = true
is_null (some _) = false

-- column < now - seconds, which no NULL satisfies
abbrev pub older_than : ℕ → ℕ → Option ℕ → Bool
older_than now seconds none = false
older_than now seconds (some t) = ltb (t + seconds * 1000000) now

-- a `values` entry that is set only if the argument is not None
abbrev pub or_keep {ℓ} : {A : Type ℓ} → Option A → Option A → Option A
or_keep none old = old
or_keep (some v) old = some v
