-- ===== src/Jobs/Runtime.antt =====
-- src/pf_core/jobs/runtime.py: the `Job` and `Step` context managers. The code inside a `with`
-- block is a parameter: a function on the job's handle and the world that may raise. The text of an
-- exception (`str(exc)`) and its class name are parameters too.
pub mod Exit
pub mod Resume
use Prim.Native.String.{◌++◌ as join}
use pf_core.Prelude.{
  ℕ, ◌+◌, String, Bool, true, false, not, ◌&&◌, Option, none, some, List, [], ◌∷◌, ◌++◌, str_eq,
  elem, prefix, if◌then◌else◌,
}
use pf_core.Result.{Exn, Result, ok, err, precondition_error}
use pf_core.Sql.{first, update}
use pf_core.Jobs.Registry.{Registry, is_terminal}
use pf_core.Jobs.Schema.{JobRow, StepRow, Db, job_is, is_null}
use pf_core.Jobs.Steps.{find_step, start_step, finish_step}
use pf_core.Jobs.Repo.{Details, get, transition}

-- what a running thread can see: the database and the context variable `current_job_id`
pub record World : Type 0 where
  pub db : Db
  pub current_job_id : Option ℕ

-- a `Job` object inside its `with` block
pub record Handle : Type 0 where
  pub job_id : ℕ
  pub row : Option JobRow
  pub outputs : Option String

abbrev pub Body : Type 0
Body = Handle → World → Option Exn × Handle × World

-- Job.status
abbrev pub cached_status : Option JobRow → String
cached_status none = ""
cached_status (some r) = r.status

abbrev pub with_db : Db → World → World
with_db db w = record w { db = db }

-- __enter__: the handle, the context variable's former value, the world
unfoldable pub enter_job : ℕ → World → Result (Handle × Option ℕ × World)
enter_job i w = elim (get i w.db) [
  | none ↦ err precondition_error
  | some row ↦ ok (
    record { job_id = i; row = some row; outputs = none },
    w.current_job_id,
    record w { current_job_id = some i },
  )
]

abbrev pub failed_row : ℕ → String → String → JobRow → JobRow
failed_row now error error_class r = record r {
  status = "failed";
  error = some error;
  error_class = some error_class;
  finished_at = some now;
  claimed_by = none;
  claimed_at = none;
  updated_at = now;
}

-- {"error_class": …} as JSON; the name of a class has nothing to escape
abbrev pub class_context : String → String
class_context c = join "{\"error_class\": \"" (join c "\"}")

-- _force_fail: 'failed' whatever the transition table says, unless the row is terminal already
unfoldable pub force_fail : ℕ → String → String → Db → Db
unfolding first update
force_fail i error error_class db = elim (first (job_is i) db.jobs) [
  | none ↦ db
  | some row ↦ record db {
    jobs =
        if is_terminal row.status
        then db.jobs
        else update (job_is i) (failed_row db.now error error_class) db.jobs;
    next_event = db.next_event + 1;
    events =
        db.events
        ++ record {
          id = db.next_event;
          job_id = i;
          event_type = "exception";
          message = error;
          context = some (class_context error_class);
          created_at = db.now;
        }
          ∷ [];
  }
]

-- the deferred outputs of a clean exit
unfoldable pub apply_outputs : ℕ → Option String → Db → Db
unfolding update
apply_outputs i none db = db
apply_outputs i (some v) db = elim (get i db) [
  | none ↦ db
  | some fresh ↦
      if is_null fresh.outputs
      then (record db { jobs = update (job_is i) (λ r. record r { outputs = some v }) db.jobs })
      else db
]

-- Job.transition: outputs are passed on for 'succeeded' and 'partial', and the row is read again
abbrev pub with_outputs : String → Option String → Details → Details
with_outputs to out x =
    if is_null x.outputs && elem to ("succeeded" ∷ "partial" ∷ [])
    then (record x { outputs = out })
    else x

unfoldable pub job_transition :
    Registry → String → Details → Handle → World → Option Exn × Handle × World
job_transition reg to x h w = elim (transition reg h.job_id to (with_outputs to h.outputs x) w.db) [
  | err e ↦ (some e, h, w)
  | ok db ↦ (none, record h { row = get h.job_id db }, with_db db w)
]

-- what the block leaves on its `_StepHandle`
pub record StepResult : Type 0 where
  pub outputs : Option String
  pub error : Option String

-- the block of a step; its first argument is `handle.skipped`
abbrev pub StepBody : Type 0
StepBody = Bool → World → Option Exn × StepResult × World

abbrev pub is_done : Option StepRow → Bool
is_done none = false
is_done (some s) = str_eq s.status "succeeded"

-- an exception of `finish_step` takes the place of the block's
abbrev pub closed : Option Exn → Result Db → World → Option Exn × World
closed e (ok db) w = (e, with_db db w)
closed e (err e') w = (some e', w)

module _ (str : Exn → String) (class_name : Exn → String) where
  -- __exit__; the exception, if any, goes on
  unfoldable pub exit_job : Option Exn → Handle → Option ℕ → World → World
  unfolding apply_outputs
  exit_job none h token w = record {
    db = apply_outputs h.job_id h.outputs w.db;
    current_job_id = token;
  }
  exit_job (some e) h token w = record {
    db = force_fail h.job_id (prefix 10000 (str e)) (class_name e) w.db;
    current_job_id = token;
  }

  -- with Job(i) as job: body
  unfoldable pub with_job : ℕ → Body → World → Option Exn × World
  unfolding enter_job exit_job
  with_job i body w = elim (enter_job i w) [
    | err e ↦ (some e, w)
    | ok (h, token, w') ↦ let (e, h', w'') = body h w' in (e, exit_job e h' token w'')
  ]

  abbrev pub close : Registry → ℕ → Option Exn → StepResult → World → Option Exn × World
  close reg s none r w = elim r.error [
    | none ↦ closed none (finish_step reg s "succeeded" r.outputs none w.db) w
    | some m ↦ closed none (finish_step reg s "failed" none (some m) w.db) w
  ]
  close reg s (some e) r w =
      closed (some e) (finish_step reg s "failed" none (some (prefix 10000 (str e))) w.db) w

  -- with job.step(name) as step: body
  unfoldable pub step :
      Registry → ℕ → String → Option String → StepBody → World → Option Exn × World
  step reg i name inputs body w =
      if is_done (find_step i name w.db)
      then (let (e, _, w') = body true w in (e, w'))
      else elim (start_step i name inputs w.db) [
        | err e ↦ (some e, w)
        | ok (s, db) ↦ let (e, r, w') = body false (with_db db w) in close reg s e r w'
      ]
