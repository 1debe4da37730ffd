-- ===== src/Jobs/Steps.antt =====
-- src/pf_core/jobs/_repo_steps.py and the lease renewal of _repo_util.py: step and event records.
-- `start_step` is one step of the model because a process-wide lock is held around it.
pub mod Index
use pf_core.Prelude.{
  ℕ, zero, suc, ◌+◌, ◌-◌, ◌/◌, max, String, Bool, true, false, not, ◌&&◌, ◌||◌, Option, none, some,
  List, [], ◌∷◌, ◌++◌, str_eq, ◌==◌, leb, elem, take, if◌then◌else◌,
}
use pf_core.Result.{
  Result, ok, precondition_error, integrity_error, invalid_input_error, require, fetch, ◌>>=◌, ◌>>◌,
}
use pf_core.Dict.{lookup}
use pf_core.Sql.{select, first, update, order_by}
use pf_core.Jobs.Registry.{JobKind, Registry}
use pf_core.Jobs.Schema.{JobRow, StepRow, EventRow, Db, job_is, step_is, is_null}

-- _touch_job_lease: renews the lease of a claimed job, a no-op on an unclaimed one
unfoldable pub touch_job_lease : ℕ → Db → Db
unfolding update
touch_job_lease i db = record db {
  jobs =
      update (λ r. job_is i r && not (is_null r.claimed_by))
        (λ r. record r { claimed_at = some db.now; updated_at = db.now }) db.jobs;
}

-- find_step: the step of that name with the highest index
unfoldable pub find_step : ℕ → String → Db → Option StepRow
unfolding first select order_by
find_step i name db =
    first (λ r. true)
      (order_by (λ y x. leb x.step_index y.step_index)
        (select (λ r. r.job_id == i && str_eq r.name name) db.steps))

-- coalesce(max(step_index), -1) + 1 over the job's steps
unfoldable pub next_index : ℕ → List StepRow → ℕ
next_index i [] = 0
next_index i (r ∷ rs) =
    let rest = next_index i rs in if r.job_id == i then max (r.step_index + 1) rest else rest

unfoldable pub start_step : ℕ → String → Option String → Db → Result (ℕ × Db)
unfolding first next_index touch_job_lease
start_step i name inputs db = do
  job ← fetch (first (job_is i) db.jobs) integrity_error
  ok (
    db.next_step,
    touch_job_lease i (record db {
      next_step = db.next_step + 1;
      steps =
          db.steps
          ++ record {
            id = db.next_step;
            job_id = i;
            step_index = next_index i db.steps;
            name = name;
            status = "running";
            inputs = inputs;
            outputs = none;
            error = none;
            started_at = db.now;
            finished_at = none;
            duration_ms = none;
          }
            ∷ [];
    }),
  )

-- _REGISTRY.get(kind) is a kind with auto_track_progress
unfoldable pub tracks : Registry → String → Bool
unfolding lookup
tracks reg kind = elim (lookup kind reg) [ none ↦ false | some d ↦ d.auto_track_progress ]

-- the increment of `progress_current`, for the statuses that count
unfoldable pub track_progress : Registry → String → JobRow → Db → Db
unfolding tracks update
track_progress reg status job db =
    if elem status ("succeeded" ∷ "failed" ∷ []) && tracks reg job.kind
    then (record db {
      jobs =
          update (job_is job.id) (λ r. record r { progress_current = r.progress_current + 1 })
            db.jobs;
    })
    else db

unfoldable pub close_step : ℕ → String → Option String → Option String → StepRow → StepRow
close_step now status outputs error r = record r {
  status = status;
  finished_at = some now;
  duration_ms = some ((now - r.started_at) / 1000);
  outputs = outputs;
  error = error;
}

-- finish_step. The query joins the step to its job, so a missing one of the two is "not found".
unfoldable pub finish_step : Registry → ℕ → String → Option String → Option String → Db → Result Db
unfolding first update track_progress touch_job_lease close_step
finish_step reg step_id status outputs error db = do
  require (elem status ("succeeded" ∷ "failed" ∷ "skipped" ∷ [])) invalid_input_error
  step ← fetch (first (step_is step_id) db.steps) precondition_error
  job ← fetch (first (job_is step.job_id) db.jobs) precondition_error
  ok (
      touch_job_lease step.job_id (
        track_progress reg status job (record db {
          steps = update (step_is step_id) (close_step db.now status outputs error) db.steps;
        })))

unfoldable pub add_event : ℕ → String → String → Option String → Db → Result (ℕ × Db)
unfolding first touch_job_lease
add_event i event_type message context db = do
  job ← fetch (first (job_is i) db.jobs) integrity_error
  ok (
    db.next_event,
    touch_job_lease i (record db {
      next_event = db.next_event + 1;
      events =
          db.events
          ++ record {
            id = db.next_event;
            job_id = i;
            event_type = event_type;
            message = message;
            context = context;
            created_at = db.now;
          }
            ∷ [];
    }),
  )

abbrev type_is : Option String → EventRow → Bool
type_is none r = true
type_is (some t) r = str_eq r.event_type t

unfoldable pub get_events : ℕ → Option String → ℕ → Db → List EventRow
unfolding select order_by
get_events i event_type limit db = take limit (
    order_by (λ y x. leb y.created_at x.created_at)
      (select (λ r. r.job_id == i && type_is event_type r) db.events))
