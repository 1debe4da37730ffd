-- ===== src/Jobs/Workers/Tests.antt =====
-- The claim loop and the subprocess runner on one queued job.
use pf_core.Prelude.{◌≡◌, ◌⊎◌, refl, String, false, Option, none, some, [], ◌∷◌, pos}
use pf_core.Result.{Exn, Result, ok, ◌>>=◌}
use pf_core.Jobs.Registry.{JobKind, Registry, default_states, default_transitions, get_kind}
use pf_core.Jobs.Schema.{JobRow, Db, empty}
use pf_core.Jobs.Repo.{NewJob, new_row, create, get}
use pf_core.Jobs.History.{creates, run, exec, history-IsValid}
use pf_core.Jobs.Runtime.{World}
use pf_core.Jobs.Submit.Ends.{IsStored, IsEnded}
use pf_core.Jobs.Worker.Claim.{IsOffered}
use pf_core.Jobs.Workers.{SubprocessJobSpec, Child, run_subprocess_job, loop_round}
use pf_core.Jobs.Workers.Ends.{run_subprocess_job-IsEnded}
use pf_core.Jobs.Workers.Round.{loop_round-IsEnded}

abbrev report_kind : JobKind
report_kind = record {
  kind = "report";
  states = default_states;
  transitions = default_transitions;
  description = none;
  inputs_schema = none;
  outputs_schema = none;
  default_priority = pos 50;
  auto_track_progress = false;
}

abbrev report_kinds : Registry
report_kinds = ("report", report_kind) ∷ []

abbrev new_report : NewJob
new_report = record {
  kind = "report";
  inputs = none;
  created_by = none;
  priority = none;
  parent_job_id = none;
  progress_total = none;
}

abbrev queue : Db
queue = run report_kinds (creates new_report ∷ []) empty

abbrev report_row : JobRow
report_row = new_row new_report none (pos 50) empty

abbrev report_spec : SubprocessJobSpec
report_spec = record {
  log_path = λ r. ok "report.log";
  argv = λ r. ok "make report";
  outputs = some (λ r code. ok "{}");
  exited = λ code lp. lp;
}

abbrev two_ticks : Result Child
two_ticks = ok (record { ticks = (λ db. db) ∷ (λ db. db) ∷ []; last = λ db. db; code = pos 0 })

abbrev text_of : Exn → String
text_of e = "boom"

abbrev idle_world : World
idle_world = record { db = queue; current_job_id = none }

run_subprocess_job-IsEnded_example :
    let after =
      (run_subprocess_job text_of text_of report_kinds report_spec two_ticks report_row
        idle_world).1 in
    IsEnded 1 after.db × (after.current_job_id ≡ none)
unfolding get run exec ◌>>=◌ create get_kind
run_subprocess_job-IsEnded_example =
    run_subprocess_job-IsEnded text_of text_of report_kinds report_spec two_ticks report_row
      idle_world "report.log" "make report" refl refl
      (((λ db h. h), ((λ db h. h), tt)), (λ db h. h)) (λ e. absurd (cc e))

abbrev runner : JobRow → World → Option Exn × World
runner = run_subprocess_job text_of text_of report_kinds report_spec two_ticks

runner_ends : (row : JobRow) (v : World) → IsStored row.id v.db → IsEnded row.id (runner row v).1.db
runner_ends row v there =
    (run_subprocess_job-IsEnded text_of text_of report_kinds report_spec two_ticks row v
      "report.log" "make report" refl refl (((λ db h. h), ((λ db h. h), tt)), (λ db h. h)) there).0

loop_round-IsEnded_example :
    ((loop_round [] "worker-1" 60 runner idle_world ≡ idle_world)
      × ((x : JobRow) → ¬ IsOffered [] 60 queue x))
    ⊎ ((r : JobRow) × IsOffered [] 60 queue r
        × IsEnded r.id (loop_round [] "worker-1" 60 runner idle_world).db)
loop_round-IsEnded_example =
    loop_round-IsEnded [] "worker-1" 60 runner idle_world
      (history-IsValid report_kinds (creates new_report ∷ [])) runner_ends
