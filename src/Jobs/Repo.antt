-- ===== src/Jobs/Repo.antt =====
-- src/pf_core/jobs/repo.py: create, read, transition, progress, cancel and retry. An operation is
-- one transaction: where it raises, the database is the one before it.
pub mod Rows
pub mod Moves
use pf_core.Prelude.{
  ℕ, ◌+◌, min, String, Bool, true, false, ◌&&◌, Option, none, some, List, [], ◌∷◌, ◌++◌, str_eq,
  ◌==◌, leb, elem, take, ℤ, pos, negsuc, pos_part, in_range, if◌then◌else◌,
}
use pf_core.Result.{
  Result, ok, precondition_error, integrity_error, invalid_input_error, require, fetch, ◌>>=◌, ◌>>◌,
}
use pf_core.Sql.{select, first, update, order_by}
use pf_core.Jobs.Registry.{
  JobKind, Registry, get_kind, can_transition, is_terminal, validate_inputs, validate_outputs,
}
use pf_core.Jobs.Schema.{JobRow, Db, job_is, is_null, or_keep}
use pf_core.Jobs.Steps.{touch_job_lease, add_event}

-- the arguments of `create`
pub record NewJob : Type 0 where
  pub kind : String
  pub inputs : Option String
  pub created_by : Option String
  pub priority : Option ℤ
  pub parent_job_id : Option ℕ
  pub progress_total : Option ℕ

abbrev checked_inputs : JobKind → Option String → Result (Option String)
checked_inputs d none = ok none
checked_inputs d (some v) = do parsed ← validate_inputs d v; ok (some parsed)

abbrev pub resolved_priority : Option ℤ → ℤ → ℤ
resolved_priority none p = p
resolved_priority (some p) _ = p

-- the foreign key `parent_job_id`
unfoldable pub parent_exists : Option ℕ → List JobRow → Bool
unfolding first
parent_exists none rows = true
parent_exists (some i) rows = elim (first (job_is i) rows) [ none ↦ false | some _ ↦ true ]

abbrev pub new_row : NewJob → Option String → ℤ → Db → JobRow
new_row a inputs priority db = record {
  id = db.next_job;
  kind = a.kind;
  parent_job_id = a.parent_job_id;
  status = "pending";
  progress_total = a.progress_total;
  progress_current = 0;
  current_step = none;
  inputs = inputs;
  outputs = none;
  error = none;
  error_class = none;
  priority = pos_part priority;
  claimed_by = none;
  claimed_at = none;
  started_at = none;
  finished_at = none;
  created_by = a.created_by;
  created_at = db.now;
  updated_at = db.now;
}

unfoldable pub create : Registry → NewJob → Db → Result (ℕ × Db)
unfolding parent_exists
create reg a db = do
  d ← get_kind reg a.kind
  inputs ← checked_inputs d a.inputs
  let priority = resolved_priority a.priority d.default_priority
  require (in_range 100 priority) invalid_input_error
  require (parent_exists a.parent_job_id db.jobs) integrity_error
  ok (
    db.next_job,
    record db { next_job = db.next_job + 1; jobs = db.jobs ++ new_row a inputs priority db ∷ [] },
  )

unfoldable pub get : ℕ → Db → Option JobRow
unfolding first
get i db = first (job_is i) db.jobs

-- the filters of `find`; `since` is already normalised to the server's clock
pub record Filters : Type 0 where
  pub kind : Option String
  pub status : Option String
  pub since : Option ℕ
  pub parent_job_id : Option ℕ
  pub created_by : Option String

abbrev text_is : Option String → String → Bool
text_is none t = true
text_is (some s) t = str_eq t s

abbrev column_is : Option String → Option String → Bool
column_is none t = true
column_is (some s) none = false
column_is (some s) (some t) = str_eq t s

abbrev id_is : Option ℕ → Option ℕ → Bool
id_is none t = true
id_is (some i) none = false
id_is (some i) (some j) = j == i

abbrev since_is : Option ℕ → ℕ → Bool
since_is none t = true
since_is (some s) t = leb s t

abbrev pub matches : Filters → JobRow → Bool
matches f r =
    text_is f.kind r.kind
    && text_is f.status r.status
    && since_is f.since r.created_at
    && id_is f.parent_job_id r.parent_job_id
    && column_is f.created_by r.created_by

-- ORDER BY created_at DESC
abbrev pub newer : JobRow → JobRow → Bool
newer y x = leb x.created_at y.created_at

unfoldable pub find : Filters → ℕ → Db → List JobRow
unfolding select order_by
find f limit db = take limit (order_by newer (select (matches f) db.jobs))

unfoldable pub descendants : ℕ → Db → List JobRow
unfolding select order_by
descendants i db =
    order_by (λ y x. leb y.created_at x.created_at)
      (select (λ r. id_is (some i) r.parent_job_id) db.jobs)

-- the optional arguments of `transition`
pub record Details : Type 0 where
  pub error : Option String
  pub error_class : Option String
  pub outputs : Option String

abbrev pub no_details : Details
no_details = record { error = none; error_class = none; outputs = none }

abbrev pub checked_outputs : JobKind → String → Option String → Result (Option String)
checked_outputs d to none = ok none
checked_outputs d to (some v) =
    if str_eq to "succeeded"
    then (do parsed ← validate_outputs d v; ok (some parsed))
    else ok (some v)

-- started_at is set on the first status other than pending
abbrev pub started : ℕ → String → Option ℕ → Option ℕ
started now to none = if str_eq to "pending" then none else some now
started now to (some t) = some t

-- the `values` of the UPDATE
unfoldable pub enter : ℕ → String → Details → Option String → JobRow → JobRow
enter now to x outputs r =
    let t = record r {
      status = to;
      updated_at = now;
      started_at = started now to r.started_at;
      error = or_keep x.error r.error;
      error_class = or_keep x.error_class r.error_class;
      outputs = or_keep outputs r.outputs;
    } in
    if is_terminal to
    then (record t { finished_at = some now; claimed_by = none; claimed_at = none })
    else t

unfoldable pub transition : Registry → ℕ → String → Details → Db → Result Db
unfolding first update enter touch_job_lease
transition reg i to x db = do
  row ← fetch (first (job_is i) db.jobs) precondition_error
  d ← get_kind reg row.kind
  require (can_transition d row.status to) precondition_error
  outputs ← checked_outputs d to x.outputs
  ok (
      touch_job_lease i
        (record db { jobs = update (job_is i) (enter db.now to x outputs) db.jobs }))

-- the arguments of `set_progress`
pub record Progress : Type 0 where
  pub current : Option ℤ
  pub total : Option ℤ
  pub step : Option String

abbrev pub not_negative : Option ℤ → Bool
not_negative none = true
not_negative (some (pos n)) = true
not_negative (some (negsuc n)) = false

abbrev current_of : Option ℤ → ℕ → ℕ
current_of none old = old
current_of (some i) old = pos_part i

abbrev total_of : Option ℤ → Option ℕ → Option ℕ
total_of none old = old
total_of (some i) old = some (pos_part i)

abbrev pub progress_row : ℕ → Progress → JobRow → JobRow
progress_row now p r = record r {
  progress_current = current_of p.current r.progress_current;
  progress_total = total_of p.total r.progress_total;
  current_step = or_keep p.step r.current_step;
  updated_at = now;
}

unfoldable pub set_progress : ℕ → Progress → Db → Result Db
unfolding update touch_job_lease
set_progress i p db = do
  require (not_negative p.current) invalid_input_error
  require (not_negative p.total) invalid_input_error
  if is_null p.current && is_null p.total && is_null p.step
      then ok db
      else ok (
          touch_job_lease i
            (record db { jobs = update (job_is i) (progress_row db.now p) db.jobs }))

-- `reason or "job canceled"`
abbrev reason_text : Option String → String
reason_text none = "job canceled"
reason_text (some s) = if str_eq s "" then "job canceled" else s

unfoldable pub cancel : Registry → ℕ → Option String → Db → Result Db
cancel reg i reason db = do
  db' ← transition reg i "canceled" (record no_details { error = reason }) db
  (_, db'') ← add_event i "canceled" (reason_text reason) none db'
  ok db''

unfoldable pub retried : ℕ → JobRow → JobRow
retried now r = record r {
  status = "pending";
  error = none;
  error_class = none;
  finished_at = none;
  claimed_by = none;
  claimed_at = none;
  priority = min 100 (r.priority + 10);
  updated_at = now;
}

unfoldable pub retry : ℕ → Db → Result Db
unfolding first update retried
retry i db = do
  row ← fetch (first (job_is i) db.jobs) precondition_error
  require (elem row.status ("failed" ∷ "partial" ∷ "canceled" ∷ [])) precondition_error
  ok (record db { jobs = update (job_is i) (retried db.now) db.jobs })
