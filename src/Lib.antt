-- ===== src/Lib.antt =====
-- Verification of pf-core: the jobs subsystem, the budget guard, the pipeline sequencer, the response
-- cache of the language model package and helpers for tables, paging and pacing.
--
-- The program. `jobs` (src/pf_core/jobs) keeps long-running work in three tables: a job has a kind,
-- whose registered transition table says which status may follow which, and step and event records.
-- Workers claim pending jobs under a lease; `Job` is the context manager in which a service runs one;
-- `submit_tracked` runs a job on a thread, `run_subprocess_job` in a child process. `budget`
-- (src/pf_core/budget) stands before calls of language models: `check_budget` compares the usage of
-- each budget that applies, snapshot plus live delta, with its limits. `pipeline.sequencer` runs a slice
-- of the phases of a pipeline. `llm.cache` keeps responses of models by the hash of the request and the
-- agent, whose slug is resolved to an id; around these stand helpers for versioned rows, soft deletion,
-- pacing of requests, pages of a table and plans that are applied later than they were made.
--
-- The files.
--   Prelude, Sql, Result, Dict: shared helpers. Sql has SELECT, UPDATE, DELETE and ORDER BY on a list of
--     rows, and their laws (Rows, Sorted, Keys); Result the exceptions, do blocks and postconditions.
--   Jobs/Registry (registry.py): register_kind, get_kind, JobKind and its validation.
--   Jobs/Schema (_schema.py): the rows, the database record with the id counters and the clock.
--   Jobs/Steps (_repo_steps.py, _repo_util.py): find_step, start_step, finish_step, add_event,
--     get_events, _touch_job_lease. Jobs/Steps/Index: step indices.
--   Jobs/Repo (repo.py): create, get, find, descendants, transition, set_progress, cancel, retry.
--   Jobs/Worker (_repo_worker.py): claim_next as claim_select and claim_take, reclaim_stale,
--     renew_lease, purge.
--   Jobs/Runtime (runtime.py): with_job is `with Job(...)`, enter_job and exit_job its __enter__ and
--     __exit__, force_fail, job_transition, and step with close as its end.
--   Jobs/Submit (submit.py): submit_tracked, tracked_thread (the nested body), _await_new_job.
--   Jobs/Workers (workers.py): loop_round is a round of _loop; run_subprocess_job.
--   Jobs/Invariant, Jobs/History: the invariant of the tables, and any sequence of transactions.
--   Budget/Period, Budget/Guard (check.py), Budget/Usage (_aggregate.py, snapshots of repo.py,
--     snapshot_job.py), Budget/Sync (sync_from_desired of repo.py).
--   Pipeline/Sequencer (src/pf_core/pipeline/sequencer.py): run_pipeline, with selection as its first
--     half.
--   Llm/Names (src/pf_core/llm/tracking/_resolvers.py): resolve is both resolvers, with the process cache.
--     Llm/Prompts (the same file): resolve_prompt_id.
--   Llm/Cache (src/pf_core/llm/cache): exact.py and invalidate.py; Llm/Cache/Policy the entry points of
--     __init__.py. Llm/Cache/Refine has the specification, a function from hash and agent to content.
--   Llm/Validate (src/pf_core/llm/validate/_pipeline.py): parse_and_validate, run_stages is _run_stages.
--   Pipeline/Cascade (src/pf_core/pipeline/cache.py): files_to_invalidate, invalidate_caches.
--   Pipeline/Baseline (src/pf_core/pipeline/baseline_diff.py): levenshtein, detect_renames and the
--     section sets of diff_baseline.
--   Llm/SafeApply (src/pf_core/llm/safe_apply.py): detect_drift and safe_apply.
--   Db/VersionedConfig, Db/SoftDelete (src/pf_core/db): rows by version, and rows marked deleted.
--   Utils/Throttle (src/pf_core/utils/throttle.py), Web/Pagination (src/pf_core/web/pagination.py).
--   Modules below these hold the proofs about them; the Tests files run the definitions at concrete inputs.
--
-- How code became definitions. A repository method is one transaction: a function from the database to
-- a result and the next database, and where it raises the database stays. Interleavings of callers
-- are lists of such transactions; `claim_next` is split, so that two workers can meet between its
-- SELECT and its UPDATE. `start_step` is one transaction because the code holds a lock around it.
-- A timestamp is a number of microseconds on the server's clock, a JSON payload its text, so that
-- dumping a model is the identity and a schema is what its `model_validate` answers. Caller code (the
-- block of a `with`, the work of a submitted job, a child process, str(exc) and the class name of an
-- exception) is a parameter. The rows of a query without ORDER BY come in insertion order, and
-- ORDER BY is stable. A column of dollars is a whole number of micro-dollars, which SUM adds exactly; a
-- float is a whole number of units of 2^-1074, so that floats compare as numbers do, and what rounds (the
-- conversion of a column, the sum and the scaling of floats, the write to a column of four decimals) is
-- the parameter `Floats`: the theorems hold for any rounding, and `doubles` of Budget/Usage/Doubles is the
-- one of IEEE 754, on which the guard is run. A threshold is a number of thousandths, the period column
-- one of daily, monthly and anything else; a date is compared through a key that orders valid dates as
-- the calendar does. The loops are over lists, without fuel, but for the 2045 doublings in `doubles`,
-- enough for the greatest double.
--
-- Not modelled. Threads and sleeping, signals, log files, most log lines, time zone coercion, the
-- paged and joined reads of the admin pages, project_cost and cost rates, configuration files; and the
-- other packages (clients, the rest of llm, eval, guards, fetch, export, cli, services, the rest of web,
-- db, utils and pipeline), which are I/O, glue or independent of the parts modelled here.
pub mod Prelude
pub mod Sql
pub mod Result
pub mod Dict
pub mod Jobs
pub mod Budget
pub mod Pipeline
pub mod Llm
pub mod Db
pub mod Utils
pub mod Web
