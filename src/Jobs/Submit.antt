-- ===== src/Jobs/Submit.antt =====
-- src/pf_core/jobs/submit.py: submitting a job to a background thread. `run` is the caller's work,
-- a function on the world that may raise; its progress callback is part of it.
pub mod Ends
use pf_core.Prelude.{
  ℕ, String, Bool, true, false, not, Option, none, some, List, [], ◌∷◌, ltb, if◌then◌else◌,
}
use pf_core.Result.{Exn, Result, ok, err, job_already_running}
use pf_core.Jobs.Registry.{Registry, is_terminal}
use pf_core.Jobs.Schema.{JobRow, Db}
use pf_core.Jobs.Repo.{NewJob, Filters, no_details, create, find}
use pf_core.Jobs.Runtime.{World, Handle, Body, cached_status, with_db, job_transition, with_job}

abbrev pub dedup_scan_limit : ℕ
dedup_scan_limit = 50

-- _inputs_dict, on JSON texts
abbrev pub inputs_of : JobRow → String
inputs_of r = elim r.inputs [ none ↦ "{}" | some t ↦ t ]

abbrev pub of_kind : String → Filters
of_kind k = record {
  kind = some k;
  status = none;
  since = none;
  parent_job_id = none;
  created_by = none;
}

-- the loop of _running_job_for
unfoldable pub first_running : (String → Bool) → List JobRow → Option ℕ
first_running match [] = none
first_running match (r ∷ rs) =
    let rest = first_running match rs in
    if is_terminal r.status then rest else if match (inputs_of r) then some r.id else rest

unfoldable pub running_job_for : String → (String → Bool) → Db → Option ℕ
unfolding first_running
running_job_for kind match db = first_running match (find (of_kind kind) dedup_scan_limit db)

unfoldable pub first_matching : (String → Bool) → List JobRow → ℕ
first_matching match [] = 0
first_matching match (r ∷ rs) =
    let rest = first_matching match rs in if match (inputs_of r) then r.id else rest

unfoldable pub latest_job_id : String → (String → Bool) → Db → ℕ
unfolding first_matching
latest_job_id kind match db = first_matching match (find (of_kind kind) dedup_scan_limit db)

-- One round of _await_new_job before its deadline: the database at the poll, whether the thread is
-- alive then, and the database at the last look.
pub record Poll : Type 0 where
  pub db : Db
  pub is_alive : Bool
  pub later : Db

unfoldable pub await_new_job : String → (String → Bool) → ℕ → List Poll → Option ℕ
await_new_job kind match after [] = none
await_new_job kind match after (p ∷ ps) =
    let rest = await_new_job kind match after ps in
    let last = latest_job_id kind match p.later in
    if ltb after (latest_job_id kind match p.db)
    then some (latest_job_id kind match p.db)
    else if p.is_alive
    then rest
    else if ltb after last
    then some last
    else none

-- `if job.status not in TERMINAL_STATES: job.transition("succeeded")`
unfoldable pub finish_run : Registry → Handle → World → Option Exn × Handle × World
finish_run reg h w =
    if is_terminal (cached_status h.row)
    then (none, h, w)
    else job_transition reg "succeeded" no_details h w

abbrev after_run : Registry → Handle → Option Exn × World → Option Exn × Handle × World
after_run reg h (some e, w) = (some e, h, w)
after_run reg h (none, w) = finish_run reg h w

abbrev after_start :
    Registry
    → (World → Option Exn × World)
    → Option Exn × Handle × World
    → Option Exn × Handle × World
after_start reg run (some e, h, w) = (some e, h, w)
after_start reg run (none, h, w) = after_run reg h (run w)

-- the block of `body()`
unfoldable pub tracked_block : Registry → (World → Option Exn × World) → Body
unfolding finish_run
tracked_block reg run h w = after_start reg run (job_transition reg "running" no_details h w)

-- the `dedup_key` test that stands first
unfoldable pub duplicate : String → Option (String → Bool) → Db → Option ℕ
unfolding running_job_for
duplicate kind none db = none
duplicate kind (some match) db = running_job_for kind match db

abbrev tracked_job : String → String → String → NewJob
tracked_job kind inputs created_by = record {
  kind = kind;
  inputs = some inputs;
  created_by = some created_by;
  priority = none;
  parent_job_id = none;
  progress_total = none;
}

-- submit_tracked up to the spawn: the new job's id
unfoldable pub submit_tracked :
    Registry → String → String → String → Option (String → Bool) → Db → Result (ℕ × Db)
unfolding duplicate
submit_tracked reg kind inputs created_by dedup_key db = elim (duplicate kind dedup_key db) [
  | some _ ↦ err job_already_running
  | none ↦ create reg (tracked_job kind inputs created_by) db
]

module _ (str : Exn → String) (class_name : Exn → String) where
  -- `body()` on the thread: exceptions are logged, not passed on
  unfoldable pub tracked_thread : Registry → ℕ → (World → Option Exn × World) → World → World
  tracked_thread reg i run w = (with_job str class_name i (tracked_block reg run) w).1
