-- ===== src/Jobs/Workers.antt =====
-- src/pf_core/jobs/workers.py: a round of the claim loop, and a claimed job run as a subprocess. The
-- child process is a parameter: whether it can be spawned, what happens to the database while the
-- runner waits, and its exit code. Signals and log files are left out.
pub mod Ends
pub mod Round
mod Tests
use pf_core.Prelude.{
  ℕ, String, Bool, true, false, Option, none, some, List, [], ◌∷◌, str_eq, ◌==◌, ℤ, pos, negsuc,
  if◌then◌else◌,
}
use pf_core.Result.{Exn, Result, ok, err}
use pf_core.Jobs.Registry.{Registry}
use pf_core.Jobs.Schema.{JobRow, Db}
use pf_core.Jobs.Steps.{add_event}
use pf_core.Jobs.Repo.{Details, no_details, get}
use pf_core.Jobs.Worker.{claim_next, renew_lease}
use pf_core.Jobs.Runtime.{World, Handle, Body, with_db, job_transition, with_job}

-- `argv` as the command line that the `started` event shows, `exited` the message for an exit code
pub record SubprocessJobSpec : Type 0 where
  pub log_path : JobRow → Result String
  pub argv : JobRow → Result String
  pub outputs : Option (JobRow → ℤ → Result String)
  pub exited : ℤ → String → String

-- What goes on while the runner waits for the child: one function for each interval that passes
-- without an exit, the last interval, and the exit code.
pub record Child : Type 0 where
  pub ticks : List (Db → Db)
  pub last : Db → Db
  pub code : ℤ

-- _wait_renewing_lease
unfoldable pub wait_renewing_lease : ℕ → List (Db → Db) → (Db → Db) → Db → Db
unfolding renew_lease
wait_renewing_lease i [] last db = last db
wait_renewing_lease i (t ∷ ts) last db = wait_renewing_lease i ts last (renew_lease i (t db)).1

-- (repo.get(job_id) or {}).get("status") == "canceled"
abbrev pub is_canceled : Option JobRow → Bool
is_canceled none = false
is_canceled (some r) = str_eq r.status "canceled"

abbrev pub is_success : ℤ → Bool
is_success (pos n) = n == 0
is_success (negsuc n) = false

-- `job.outputs = spec.outputs(job_row, rc)`
abbrev pub outputs_for : Option (JobRow → ℤ → Result String) → JobRow → ℤ → Handle → Result Handle
outputs_for none row code h = ok h
outputs_for (some f) row code h = elim (f row code) [
  | ok v ↦ ok (record h { outputs = some v })
  | err e ↦ err e
]

abbrev pub succeed : Registry → Result Handle → Handle → World → Option Exn × Handle × World
succeed reg (err e) h w = (some e, h, w)
succeed reg (ok h') h w = job_transition reg "succeeded" no_details h' w

-- the block after the child has exited
unfoldable pub settle :
    Registry
    → SubprocessJobSpec
    → JobRow
    → String
    → ℤ
    → Handle
    → World
    → Option Exn × Handle × World
settle reg spec row lp code h w =
    if is_canceled (get h.job_id w.db)
    then (none, h, w)
    else if is_success code
    then succeed reg (outputs_for spec.outputs row code h) h w
    else job_transition reg "failed" (record no_details { error = some (spec.exited code lp) }) h w

abbrev pub after_spawn :
    Registry
    → SubprocessJobSpec
    → JobRow
    → String
    → Result Child
    → Handle
    → World
    → Option Exn × Handle × World
after_spawn reg spec row lp (err e) h w = (some e, h, w)
after_spawn reg spec row lp (ok c) h w =
    settle reg spec row lp c.code h (with_db (wait_renewing_lease h.job_id c.ticks c.last w.db) w)

abbrev pub after_event :
    Registry
    → SubprocessJobSpec
    → JobRow
    → String
    → Result Child
    → Handle
    → World
    → Result (ℕ × Db)
    → Option Exn × Handle × World
after_event reg spec row lp child h w (err e) = (some e, h, w)
after_event reg spec row lp child h w (ok (n, db)) =
    after_spawn reg spec row lp child h (with_db db w)

abbrev pub after_begin :
    Registry
    → SubprocessJobSpec
    → JobRow
    → String
    → String
    → Result Child
    → Option Exn × Handle × World
    → Option Exn × Handle × World
after_begin reg spec row lp cmd child (some e, h, w) = (some e, h, w)
after_begin reg spec row lp cmd child (none, h, w) =
    after_event reg spec row lp child h w (add_event h.job_id "started" cmd none w.db)

-- the `with Job(...)` block
unfoldable pub subprocess_block :
    Registry → SubprocessJobSpec → JobRow → String → String → Result Child → Body
unfolding settle
subprocess_block reg spec row lp cmd child h w =
    after_begin reg spec row lp cmd child (job_transition reg "running" no_details h w)

module _ (str class_name : Exn → String) where
  abbrev pub launched :
      Registry
      → SubprocessJobSpec
      → Result Child
      → JobRow
      → Result String
      → Result String
      → World
      → Option Exn × World
  launched reg spec child row (err e) cmd w = (some e, w)
  launched reg spec child row (ok lp) (err e) w = (some e, w)
  launched reg spec child row (ok lp) (ok cmd) w =
      with_job str class_name row.id (subprocess_block reg spec row lp cmd child) w

  unfoldable pub run_subprocess_job :
      Registry → SubprocessJobSpec → Result Child → JobRow → World → Option Exn × World
  unfolding subprocess_block
  run_subprocess_job reg spec child row w =
      launched reg spec child row (spec.log_path row) (spec.argv row) w

-- one round of _loop: exceptions of `run` are logged, not passed on
unfoldable pub loop_round :
    List String → String → ℕ → (JobRow → World → Option Exn × World) → World → World
unfolding claim_next
loop_round kinds worker lease run w =
    let claimed = claim_next kinds worker lease w.db in
    elim claimed.0 [ none ↦ with_db claimed.1 w | some row ↦ (run row (with_db claimed.1 w)).1 ]
