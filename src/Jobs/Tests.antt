-- ===== src/Jobs/Tests.antt =====
-- Runs of the jobs components at concrete inputs.
use pf_core.Prelude.{
  ◌≡◌, ◌≢◌, refl, String, true, Option, none, some, List, [], ◌∷◌, pos, arith, prefix, ◌≤◌, ◌++◌,
  ◌⊎◌,
}
use pf_core.Result.{Exn, precondition_error, ◌>>=◌}
use pf_core.Jobs.Registry.{
  JobKind, Registry, default_states, default_transitions, get_kind, validate_against_schema,
  can_transition,
}
use pf_core.Jobs.Schema.{JobRow, StepRow, Db, empty}
use pf_core.Jobs.Repo.{NewJob, new_row, create, get, transition, no_details, retry}
use pf_core.Jobs.History.{
  Op, creates, transitions, takes, waits, starts_step, run, exec, history-IsValid,
}
use pf_core.Jobs.Invariant.{IsValid}
use pf_core.Jobs.Runtime.{World}
use pf_core.Jobs.Worker.{claim_take}
use pf_core.Jobs.Worker.Claim.{later, claim_take_exclusive}
use pf_core.Jobs.Submit.{tracked_thread}
use pf_core.Jobs.Submit.Ends.{IsEnded, tracked_thread-IsEnded, tracked_thread_ended_by_work}
use pf_core.Jobs.Worker.Claim.{IsOffered, IsUrgent, taken, claim_next_lem}
use pf_core.Jobs.Worker.Lease.{reclaimed, reclaim_stale-renew_lease, reclaim_stale_offers}
use pf_core.Jobs.Worker.{claim_next, claim_select, reclaim_stale, renew_lease}
use pf_core.Jobs.Repo.Moves.{Transitioned, Retried, transition-Transitioned, retry-Retried}
use pf_core.Jobs.Steps.{start_step, find_step, finish_step}
use pf_core.Jobs.Steps.Index.{Started, IsNamed, start_step-Started, find_step-latest}
use pf_core.Jobs.Runtime.{with_job, step, StepBody, Body, with_db}
use pf_core.Jobs.Runtime.Exit.{IsForced, exception_event, with_job_raises}
use pf_core.Jobs.Runtime.Resume.{step_resumes}
use mathlib.Core.List.{Memᴰ}

abbrev export_kind : JobKind
export_kind = record {
  kind = "export";
  states = default_states;
  transitions = default_transitions;
  description = none;
  inputs_schema = none;
  outputs_schema = none;
  default_priority = pos 50;
  auto_track_progress = true;
}

abbrev kinds : Registry
kinds = ("export", export_kind) ∷ []

abbrev new_export : NewJob
new_export = record {
  kind = "export";
  inputs = some "{}";
  created_by = none;
  priority = none;
  parent_job_id = none;
  progress_total = none;
}

abbrev two_jobs : List Op
two_jobs = waits 1000000 ∷ creates new_export ∷ creates new_export ∷ []

abbrev db : Db
db = run kinds two_jobs empty

abbrev a_run : List Op
a_run =
    waits 1000000
    ∷ creates new_export
    ∷ takes 1 60 "worker-1"
    ∷ transitions 1 "running" no_details
    ∷ starts_step 1 "fetch" none
    ∷ transitions 1 "succeeded" no_details
    ∷ []

history-IsValid_example : IsValid (run kinds a_run empty)
history-IsValid_example = history-IsValid kinds a_run

claim_take_exclusive_example :
    claim_take 1 60 "worker-2" (later 5 (claim_take 1 60 "worker-1" db).1)
    ≡ (none, later 5 (claim_take 1 60 "worker-1" db).1)
unfolding claim_take run exec ◌>>=◌ create validate_against_schema get_kind
claim_take_exclusive_example =
    claim_take_exclusive 1 60 5 "worker-1" "worker-2" db _ (history-IsValid kinds two_jobs)
      (omega arith) refl

claim_next_lem_example :
    ((claim_next [] "worker-1" 60 db).0 ≡ none) × ((x : JobRow) → ¬ IsOffered [] 60 db x)
    ⊎ ((r : JobRow) × ((claim_next [] "worker-1" 60 db).0 ≡ some (taken "worker-1" db r))
        × IsOffered [] 60 db r
        × ((x : JobRow) → IsOffered [] 60 db x → IsUrgent r x))
claim_next_lem_example = claim_next_lem [] "worker-1" 60 db (history-IsValid kinds two_jobs)

abbrev text_of : Exn → String
text_of e = "boom"

abbrev name_of : Exn → String
name_of e = "ValueError"

abbrev world : World
world = record { db = db; current_job_id = some 9 }

abbrev idle : World → Option Exn × World
idle w = (none, w)

tracked_thread-IsEnded_example :
    IsEnded 1 (tracked_thread text_of name_of kinds 1 idle world).db
    × ((tracked_thread text_of name_of kinds 1 idle world).current_job_id ≡ some 9)
unfolding get run exec ◌>>=◌ create validate_against_schema get_kind
tracked_thread-IsEnded_example =
    tracked_thread-IsEnded text_of name_of kinds 1 idle world (λ w h. h) (λ e. absurd (cc e))

abbrev started_jobs : List Op
started_jobs =
    waits 1000000
    ∷ creates new_export
    ∷ takes 1 60 "worker-1"
    ∷ transitions 1 "running" no_details
    ∷ []

abbrev working : Db
working = run kinds started_jobs empty

transition-Transitioned_example : (db' : Db) × Transitioned kinds 1 "running" no_details db db'
unfolding transition run exec ◌>>=◌ create validate_against_schema get_kind can_transition
transition-Transitioned_example =
    (_, transition-Transitioned kinds 1 "running" no_details db _ refl)

abbrev failed_db : Db
failed_db =
    run kinds
      (two_jobs ++ transitions 1 "running" no_details ∷ transitions 1 "failed" no_details ∷ [])
      empty

retry-Retried_example : (db' : Db) × Retried 1 failed_db db'
unfolding retry run exec ◌>>=◌ create validate_against_schema get_kind transition can_transition
retry-Retried_example = (_, retry-Retried 1 failed_db _ refl)

start_step-Started_example : (db' : Db) × Started 1 "fetch" working 1 db'
unfolding start_step run exec ◌>>=◌ create validate_against_schema get_kind transition claim_take
    can_transition
start_step-Started_example = (_, start_step-Started 1 "fetch" none working 1 _ refl)

find_step-latest_example :
    (find_step 1 "fetch" working ≡ none) × ((x : StepRow) → ¬ IsNamed 1 "fetch" working x)
    ⊎ ((r : StepRow) × (find_step 1 "fetch" working ≡ some r)
        × IsNamed 1 "fetch" working r
        × ((x : StepRow) → IsNamed 1 "fetch" working x → x.step_index ≤ r.step_index))
find_step-latest_example = find_step-latest 1 "fetch" working

reclaim_stale-renew_lease_example :
    (r : JobRow) × (get 1 (reclaim_stale 60 (later 60000000 (renew_lease 1 working).1)).1 ≡ some r)
unfolding get renew_lease run exec ◌>>=◌ create validate_against_schema get_kind transition
    claim_take can_transition
reclaim_stale-renew_lease_example =
    (_, reclaim_stale-renew_lease 1 60 60000000 working _ (omega arith) refl refl)

abbrev queued_1 : JobRow
queued_1 = new_row new_export (some "{}") (pos 50) (record empty { now = 1000000 })

abbrev running_1 : JobRow
running_1 = record queued_1 {
  status = "running";
  started_at = some 1000000;
  claimed_by = some "worker-1";
  claimed_at = some 1000000;
}

abbrev lapsed : Db
lapsed = later 60000001 working

reclaim_stale_offers_example :
    Memᴰ (reclaimed lapsed.now running_1) (reclaim_stale 60 lapsed).1.jobs
    × (claim_select [] 60 (reclaim_stale 60 lapsed).1 ≢ none)
unfolding run exec ◌>>=◌ create validate_against_schema get_kind transition claim_take
    can_transition
reclaim_stale_offers_example = reclaim_stale_offers 60 lapsed running_1 (Memᴰ.head refl) refl

abbrev raising : Body
raising h w = (some precondition_error, h, w)

with_job_raises_example :
    let after = (with_job text_of name_of 1 raising world).1 in
    ((with_job text_of name_of 1 raising world).0 ≡ some precondition_error)
    × (after.current_job_id ≡ some 9)
    × ((s : JobRow) × (get 1 after.db ≡ some s)
        × IsForced db.now (prefix 10000 "boom") "ValueError" queued_1 s)
    × (after.db.events ≡ db.events ++ exception_event 1 (prefix 10000 "boom") "ValueError" db ∷ [])
unfolding get run exec ◌>>=◌ create validate_against_schema get_kind
with_job_raises_example =
    with_job_raises text_of name_of 1 raising world (record world { current_job_id = some 1 })
      (record { job_id = 1; row = some queued_1; outputs = none }) precondition_error queued_1
      queued_1 refl refl refl

abbrev quiet : StepBody
quiet skipped w = (none, record { outputs = none; error = none }, w)

abbrev at_work : World
at_work = record { db = working; current_job_id = some 1 }

step_resumes_example :
    (w₂ : World) × (step text_of name_of kinds 1 "fetch" none quiet w₂ ≡ (none, w₂))
unfolding step find_step start_step finish_step run exec ◌>>=◌ create validate_against_schema
    get_kind transition claim_take can_transition
step_resumes_example = (
  _,
  step_resumes kinds 1 "fetch" none at_work (history-IsValid kinds started_jobs) text_of name_of
      quiet (λ w. refl) (λ w. refl) none quiet _ refl refl,
)

abbrev done_db : Db
done_db = run kinds (transitions 1 "succeeded" no_details ∷ []) working

abbrev finishing : World → Option Exn × World
finishing w = (none, with_db done_db w)

tracked_thread_ended_by_work_example :
    let after = tracked_thread text_of name_of kinds 1 finishing world in
    (get 1 after.db ≡ get 1 done_db)
    × (after.db.events
        ≡ done_db.events ++ exception_event 1 (prefix 10000 "boom") "ValueError" done_db ∷ [])
unfolding get run exec ◌>>=◌ create validate_against_schema get_kind transition claim_take
    can_transition
tracked_thread_ended_by_work_example =
    tracked_thread_ended_by_work text_of name_of kinds 1 finishing world _ _ queued_1 _ _ refl refl
      refl refl refl refl
