-- ===== src/Budget/Usage.antt =====
-- src/pf_core/budget/_aggregate.py, `current_usage` of check.py, and the snapshots of repo.py and
-- snapshot_job.py. A column of dollars, and SUM over it, is a whole number of micro-dollars; a float is
-- a whole number of units of 2^-1074, of which every double from 0 on is a multiple, so that comparing
-- two floats is comparing two numbers, and what rounds is a parameter, `Floats`. The joins of a run with
-- its agent type, job and tags are fields of the run.
pub mod Doubles
pub mod Exact
use pf_core.Prelude.{
  ℕ, ◌+◌, String, Bool, true, false, not, ◌&&◌, Option, none, some, List, [], ◌∷◌, ◌++◌, str_eq,
  ◌==◌, ltb, leb, elem, if◌then◌else◌,
}
use pf_core.Result.{Result, ok, err, invalid_input_error, require, ◌>>=◌, ◌>>◌}
use pf_core.Sql.{first, update}
use pf_core.Budget.Period.{Period, Date, key, midnight, compute_period_start, compute_period_end}

-- the float operations of the budget code
pub record Floats : Type 0 where
  -- float(…) of a dollar column
  pub of_micros : ℕ → ℕ
  -- the sum of two floats
  pub add : ℕ → ℕ → ℕ
  -- a float times a fraction in thousandths
  pub scale : ℕ → ℕ → ℕ
  -- what a column Numeric(12, 4) holds after a float is written to it
  pub stored : ℕ → ℕ

-- `scope_kind` with its `scope_value`; `other` is an unrecognised kind, or a job id scope without a value
pub data Scope : Type 0 where
  global : Scope
  agent job_kind tag : String → Scope
  job_id : ℕ → Scope
  other : String → Scope

pub record Budget : Type 0 where
  pub id : ℕ
  pub scope : Scope
  pub period : Period
  pub limit_usd : Option ℕ
  pub limit_tokens : Option ℕ
  pub limit_calls : Option ℕ
  -- fractions of the limit, in thousandths
  pub soft_thresholds : List ℕ
  pub action : String
  pub enabled : Bool

-- a row of `llm_runs`
pub record Run : Type 0 where
  pub agent : Option String
  pub job : Option (ℕ × String)
  pub tags : List String
  pub created_at : ℕ
  pub status : String
  pub cost_usd : Option ℕ
  pub prompt_tokens : Option ℕ
  pub completion_tokens : Option ℕ
  pub cache_read_tokens : Option ℕ
  pub cache_write_tokens : Option ℕ

-- `usd` is a float, but in the rows of a query micro-dollars
pub record Usage : Type 0 where
  pub usd : ℕ
  pub tokens : ℕ
  pub calls : ℕ

abbrev pub or_zero : Option ℕ → ℕ
or_zero none = 0
or_zero (some n) = n

abbrev text_is : Option String → String → Bool
text_is none s = false
text_is (some t) s = str_eq t s

abbrev job_has_kind : Option (ℕ × String) → String → Bool
job_has_kind none s = false
job_has_kind (some (i, k)) s = str_eq k s

abbrev job_has_id : Option (ℕ × String) → ℕ → Bool
job_has_id none n = false
job_has_id (some (i, k)) n = i == n

-- apply_scope_filter, on one run
unfoldable pub in_scope : Scope → Run → Bool
in_scope global r = true
in_scope (agent s) r = text_is r.agent s
in_scope (job_kind s) r = job_has_kind r.job s
in_scope (job_id n) r = job_has_id r.job n
in_scope (tag s) r = elem s r.tags
in_scope (other k) r = false

-- the scopes that it refuses
abbrev pub is_known : Scope → Bool
is_known (other k) = false
is_known _ = true

-- status NOT IN ('cache_hit', 'budget_blocked')
abbrev pub counts : Run → Bool
counts r = not (elem r.status ("cache_hit" ∷ "budget_blocked" ∷ []))

abbrev pub tokens_of : Run → ℕ
tokens_of r =
    or_zero r.prompt_tokens
    + or_zero r.completion_tokens
    + or_zero r.cache_read_tokens
    + or_zero r.cache_write_tokens

abbrev pub zero_usage : Usage
zero_usage = record { usd = 0; tokens = 0; calls = 0 }

abbrev pub add_run : Run → Usage → Usage
add_run r u = record {
  usd = or_zero r.cost_usd + u.usd;
  tokens = tokens_of r + u.tokens;
  calls = 1 + u.calls;
}

-- usage_columns over the rows that a test selects
unfoldable pub sum_usage : (Run → Bool) → List Run → Usage
sum_usage p [] = zero_usage
sum_usage p (r ∷ rs) = let rest = sum_usage p rs in if p r then add_run r rest else rest

abbrev pub before_cutoff : Option ℕ → ℕ → Bool
before_cutoff none t = true
before_cutoff (some c) t = ltb t c

abbrev pub in_window : Scope → Date → Date → Option ℕ → Run → Bool
in_window s start end' cutoff r =
    leb (midnight start) r.created_at
    && ltb r.created_at (midnight end')
    && counts r
    && before_cutoff cutoff r.created_at
    && in_scope s r

-- float(usd or 0)
abbrev pub floated : Floats → Usage → Usage
floated fl u = record u { usd = fl.of_micros u.usd }

unfoldable pub aggregate_usage : Floats → Budget → Date → Date → Option ℕ → List Run → Result Usage
unfolding sum_usage
aggregate_usage fl b start end' cutoff runs = do
  require (is_known b.scope) invalid_input_error
  ok (floated fl (sum_usage (in_window b.scope start end' cutoff) runs))

-- a row of `llm_budget_snapshots`
pub record Snapshot : Type 0 where
  pub budget_id : ℕ
  -- the key of the date
  pub period_start : ℕ
  pub spent_usd : ℕ
  pub spent_tokens : ℕ
  pub run_count : ℕ
  pub last_updated : ℕ

abbrev pub snapshot_is : ℕ → ℕ → Snapshot → Bool
snapshot_is b start s = s.budget_id == b && s.period_start == start

-- BudgetSnapshotRepo.get
unfoldable pub get_snapshot : ℕ → ℕ → List Snapshot → Option Snapshot
unfolding first
get_snapshot b start snaps = first (snapshot_is b start) snaps

abbrev pub in_delta : Scope → ℕ → Date → Run → Bool
in_delta s since end' r =
    leb since r.created_at && ltb r.created_at (midnight end') && counts r && in_scope s r

abbrev pub plus_snapshot : Floats → Snapshot → Usage → Usage
plus_snapshot fl s u = record {
  usd = fl.add (fl.of_micros s.spent_usd) (fl.of_micros u.usd);
  tokens = s.spent_tokens + u.tokens;
  calls = s.run_count + u.calls;
}

abbrev pub resumed : Floats → Budget → Date → Date → List Run → Option Snapshot → Result Usage
resumed fl b start end' runs none = aggregate_usage fl b start end' none runs
resumed fl b start end' runs (some s) = do
  require (is_known b.scope) invalid_input_error
  ok (plus_snapshot fl s (sum_usage (in_delta b.scope s.last_updated end') runs))

-- current_usage, on the day `today`
unfoldable pub current_usage : Floats → Date → List Snapshot → List Run → Budget → Result Usage
unfolding aggregate_usage get_snapshot sum_usage
current_usage fl today snaps runs b = do
  start ← compute_period_start b.period today
  end' ← compute_period_end b.period start
  resumed fl b start end' runs (get_snapshot b.id (key start) snaps)

-- BudgetSnapshotRepo.upsert, with all of its arguments given
abbrev pub written : Floats → ℕ → ℕ → Usage → ℕ → Snapshot
written fl b start u cutoff = record {
  budget_id = b;
  period_start = start;
  spent_usd = fl.stored u.usd;
  spent_tokens = u.tokens;
  run_count = u.calls;
  last_updated = cutoff;
}

unfoldable pub upsert_snapshot : Floats → ℕ → ℕ → Usage → ℕ → List Snapshot → List Snapshot
unfolding first update
upsert_snapshot fl b start u cutoff snaps = elim (first (snapshot_is b start) snaps) [
  | none ↦ snaps ++ written fl b start u cutoff ∷ []
  | some _ ↦ update (snapshot_is b start) (λ s. written fl b start u cutoff) snaps
]

abbrev upserted : Floats → Budget → Date → ℕ → List Snapshot → Result Usage → List Snapshot × ℕ
upserted fl b start cutoff snaps (err e) = (snaps, 0)
upserted fl b start cutoff snaps (ok u) = (upsert_snapshot fl b.id (key start) u cutoff snaps, 1)

-- one round of `refresh_snapshots`: InvalidInputError skips the budget, an unknown period raises
unfoldable pub refresh_one :
    Floats → Date → ℕ → List Run → Budget → List Snapshot → Result (List Snapshot × ℕ)
unfolding upsert_snapshot aggregate_usage
refresh_one fl today cutoff runs b snaps = do
  start ← compute_period_start b.period today
  end' ← compute_period_end b.period start
  ok (upserted fl b start cutoff snaps (aggregate_usage fl b start end' (some cutoff) runs))

-- its loop over the enabled budgets, with no restriction to one period
unfoldable pub refresh_snapshots :
    Floats → Date → ℕ → List Run → List Budget → List Snapshot → Result (List Snapshot × ℕ)
unfolding refresh_one
refresh_snapshots fl today cutoff runs [] snaps = ok (snaps, 0)
refresh_snapshots fl today cutoff runs (b ∷ bs) snaps = do
  one ← refresh_one fl today cutoff runs b snaps
  rest ← refresh_snapshots fl today cutoff runs bs one.0
  ok (rest.0, one.1 + rest.1)
