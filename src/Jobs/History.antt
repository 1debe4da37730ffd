-- ===== src/Jobs/History.antt =====
-- Any sequence of operations on the jobs database, by any number of callers: each operation is one
-- transaction, so an interleaving is a list. An operation that raises changes nothing.
use pf_core.Prelude.{ℕ, ◌+◌, String, Option, List, [], ◌∷◌, ℤ}
use pf_core.Result.{Result, ok, err}
use pf_core.Result.Rules.{Returns}
use pf_core.Jobs.Registry.{Registry}
use pf_core.Jobs.Schema.{Db, empty}
use pf_core.Jobs.Steps.{start_step, finish_step, add_event}
use pf_core.Jobs.Repo.{NewJob, Details, Progress, create, transition, set_progress, retry}
use pf_core.Jobs.Worker.{claim_take, reclaim_stale, renew_lease, purge}
use pf_core.Jobs.Runtime.{force_fail, apply_outputs}
use pf_core.Jobs.Invariant.{IsValid}
use pf_core.Jobs.Invariant.Ops.{
  create-IsValid, transition-IsValid, set_progress-IsValid, retry-IsValid, add_event-IsValid,
  start_step-IsValid, finish_step-IsValid, claim_take-IsValid, reclaim_stale-IsValid,
  renew_lease-IsValid, purge-IsValid, force_fail-IsValid, apply_outputs-IsValid,
}

-- The transactions; `cancel` is two of them, and the SELECT of `claim_next` changes nothing.
pub data Op : Type 0 where
  creates : NewJob → Op
  transitions : ℕ → String → Details → Op
  progresses : ℕ → Progress → Op
  retries : ℕ → Op
  logs : ℕ → String → String → Option String → Op
  starts_step : ℕ → String → Option String → Op
  finishes_step : ℕ → String → Option String → Option String → Op
  takes : ℕ → ℕ → String → Op
  reclaims : ℕ → Op
  renews : ℕ → Op
  purges : ℤ → Option (List String) → Op
  fails : ℕ → String → String → Op
  outputs : ℕ → Option String → Op
  -- time passes
  waits : ℕ → Op

abbrev pub kept : Db → Result Db → Db
kept db (ok db') = db'
kept db (err e) = db

abbrev pub kept₁ : Db → Result (ℕ × Db) → Db
kept₁ db (ok (n, db')) = db'
kept₁ db (err e) = db

unfoldable pub exec : Registry → Op → Db → Db
exec reg (creates a) db = kept₁ db (create reg a db)
exec reg (transitions i to x) db = kept db (transition reg i to x db)
exec reg (progresses i p) db = kept db (set_progress i p db)
exec reg (retries i) db = kept db (retry i db)
exec reg (logs i type m c) db = kept₁ db (add_event i type m c db)
exec reg (starts_step i name inputs) db = kept₁ db (start_step i name inputs db)
exec reg (finishes_step s status o e) db = kept db (finish_step reg s status o e db)
exec reg (takes i lease worker) db = (claim_take i lease worker db).1
exec reg (reclaims lease) db = (reclaim_stale lease db).1
exec reg (renews i) db = (renew_lease i db).1
exec reg (purges seconds status) db = kept₁ db (purge seconds status db)
exec reg (fails i error error_class) db = force_fail i error error_class db
exec reg (outputs i o) db = apply_outputs i o db
exec reg (waits n) db = record db { now = db.now + n }

unfoldable pub run : Registry → List Op → Db → Db
unfolding exec
run reg [] db = db
run reg (o ∷ os) db = run reg os (exec reg o db)

kept-IsValid : (db : Db) (r : Result Db) → IsValid db → Returns IsValid r → IsValid (kept db r)
kept-IsValid db (ok db') v h = h.at db' (λ i. ok db')
kept-IsValid db (err e) v h = v

kept₁-IsValid :
    (db : Db) (r : Result (ℕ × Db))
    → IsValid db
    → Returns (λ (p : ℕ × Db). IsValid p.1) r
    → IsValid (kept₁ db r)
kept₁-IsValid db (ok (n, db')) v h = h.at (n, db') (λ i. ok (n, db'))
kept₁-IsValid db (err e) v h = v

pub exec-IsValid : (reg : Registry) (o : Op) (db : Db) → IsValid db → IsValid (exec reg o db)
unfolding exec
exec-IsValid reg (creates a) db v = kept₁-IsValid db _ v (create-IsValid reg a db v)
exec-IsValid reg (transitions i to x) db v =
    kept-IsValid db _ v (transition-IsValid reg i to x db v)
exec-IsValid reg (progresses i p) db v = kept-IsValid db _ v (set_progress-IsValid i p db v)
exec-IsValid reg (retries i) db v = kept-IsValid db _ v (retry-IsValid i db v)
exec-IsValid reg (logs i type m c) db v = kept₁-IsValid db _ v (add_event-IsValid i type m c db v)
exec-IsValid reg (starts_step i name x) db v =
    kept₁-IsValid db _ v (start_step-IsValid i name x db v)
exec-IsValid reg (finishes_step s status o e) db v =
    kept-IsValid db _ v (finish_step-IsValid reg s status o e db v)
exec-IsValid reg (takes i lease worker) db v = claim_take-IsValid i lease worker db v
exec-IsValid reg (reclaims lease) db v = reclaim_stale-IsValid lease db v
exec-IsValid reg (renews i) db v = renew_lease-IsValid i db v
exec-IsValid reg (purges seconds status) db v =
    kept₁-IsValid db _ v (purge-IsValid seconds status db v)
exec-IsValid reg (fails i error error_class) db v = force_fail-IsValid i error error_class db v
exec-IsValid reg (outputs i o) db v = apply_outputs-IsValid i o db v
exec-IsValid reg (waits n) db v = record {
  rows = v.rows;
  job_ids = v.job_ids;
  step_ids = v.step_ids;
  event_ids = v.event_ids;
  step_order = v.step_order;
  step_jobs = v.step_jobs;
  event_jobs = v.event_jobs;
}

run-IsValid : (reg : Registry) (os : List Op) (db : Db) → IsValid db → IsValid (run reg os db)
unfolding run
run-IsValid reg [] db v = v
run-IsValid reg (o ∷ os) db v = run-IsValid reg os (exec reg o db) (exec-IsValid reg o db v)

empty-IsValid : IsValid empty
empty-IsValid = record {
  rows = tt;
  job_ids = (tt, tt);
  step_ids = (tt, tt);
  event_ids = (tt, tt);
  step_order = tt;
  step_jobs = tt;
  event_jobs = tt;
}

-- After any operations from the empty tables, in any order and whether they raise or not, the tables
-- are valid: ids are unique and below the counters, every priority is at most 100, a job has a
-- claimant exactly while it has a claim time, no terminal job is claimed, the step indices of a job
-- ascend (so none occurs twice), and each step and event belongs to a job of the table.
pub history-IsValid : (reg : Registry) (os : List Op) → IsValid (run reg os empty)
history-IsValid reg os = run-IsValid reg os empty empty-IsValid
