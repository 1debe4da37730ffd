-- ===== src/Budget/Guard.antt =====
-- `check_budget` of src/pf_core/budget/check.py, with `list_for_scopes` of repo.py: the pre-call guard.
pub mod Breach
pub mod Caps
pub mod Thresholds
use pf_core.Prelude.{
  ℕ, ◌+◌, ◌*◌, String, Bool, true, false, not, ◌&&◌, ◌||◌, Option, none, some, List, [], ◌∷◌, ◌++◌,
  str_eq, ◌==◌, ltb, leb, elem, if◌then◌else◌,
}
use pf_core.Result.{Exn, Result, ok, err}
use pf_core.Sql.{select, order_by}
use pf_core.Budget.Period.{Period, daily, monthly, unknown, Date, key, compute_period_start}
use pf_core.Budget.Usage.{
  Floats, Scope, global, agent, job_kind, job_id, tag, other, Budget, Run, Usage, Snapshot, or_zero,
  current_usage,
}

-- the arguments of `check_budget`, the projected cost a float; of `override` only whether it is empty matters
pub record Request : Type 0 where
  pub agent_type : Option String
  pub projected_cost_usd : ℕ
  pub projected_tokens : Option ℕ
  pub projected_calls : Option ℕ
  pub job_id : Option ℕ
  pub job_kind : Option String
  pub tags : List String
  pub has_override : Bool

pub data Dimension : Type 0 where
  usd tokens calls : Dimension

pub record Excess : Type 0 where
  pub budget : Budget
  pub dimension : Dimension
  pub limit : ℕ
  pub spent : ℕ
  pub projected : ℕ

-- the guard returns, raises CostBudgetExceeded, or another exception comes through
pub data Verdict : Type 0 where
  passed : Verdict
  exceeded : Excess → Verdict
  failed : Exn → Verdict

-- warnings: `budget_threshold_crossed` and `budget_warn_exceeded`
pub data Log : Type 0 where
  crossed : ℕ → ℕ → ℕ → Log
  warned : ℕ → Dimension → Log

-- (budget id, period start, fraction)
abbrev pub Fired : Type 0
Fired = List (ℕ × ℕ × ℕ)

-- `if agent_type:` leaves the empty text out
abbrev given : Option String → String → Bool
given none s = false
given (some t) s = not (str_eq t "") && str_eq t s

abbrev given_id : Option ℕ → ℕ → Bool
given_id none n = false
given_id (some m) n = m == n

-- list_for_scopes, on one scope
unfoldable pub applies : Request → Scope → Bool
applies q global = true
applies q (agent s) = given q.agent_type s
applies q (job_kind s) = given q.job_kind s
applies q (job_id n) = given_id q.job_id n
applies q (tag s) = elem s q.tags
applies q (other k) = false

unfoldable pub list_for_scopes : Request → List Budget → List Budget
unfolding select applies
list_for_scopes q budgets = select (λ b. b.enabled && applies q b.scope) budgets

abbrev rank : Scope → ℕ
rank global = 0
rank (agent s) = 1
rank (job_kind s) = 2
rank (job_id n) = 3
rank (tag s) = 4
rank (other k) = 99

-- "daily" < "monthly"
abbrev period_rank : Period → ℕ
period_rank daily = 0
period_rank monthly = 1
period_rank unknown = 2

-- the sort key of `check_budget`
abbrev pub guard_before : Budget → Budget → Bool
guard_before a b =
    ltb (rank a.scope) (rank b.scope)
    || rank a.scope == rank b.scope && leb (period_rank a.period) (period_rank b.period)

abbrev pub fired_before : ℕ → ℕ → ℕ → Fired → Bool
fired_before i p f [] = false
fired_before i p f ((j, q, g) ∷ l) = (i == j && (p == q && f == g)) || fired_before i p f l

-- the loop of _maybe_log_threshold
unfoldable pub cross_each : Floats → ℕ → ℕ → ℕ → ℕ → ℕ → List ℕ → Fired → List Log × Fired
cross_each fl i period limit before after [] fired = ([], fired)
cross_each fl i period limit before after (f ∷ fs) fired =
    if ltb before (fl.scale limit f)
      && (leb (fl.scale limit f) after && not (fired_before i period f fired))
    then (let rest = cross_each fl i period limit before after fs ((i, period, f) ∷ fired) in
        (crossed i period f ∷ rest.0, rest.1))
    else cross_each fl i period limit before after fs fired

abbrev pub started_key : Result Date → ℕ
started_key (ok d) = key d
started_key (err e) = 0

unfoldable pub maybe_log_threshold : Floats → Date → Budget → ℕ → ℕ → Fired → List Log × Fired
unfolding cross_each
maybe_log_threshold fl today b before after fired = elim b.limit_usd [
  | none ↦ ([], fired)
  | some limit ↦
      cross_each fl b.id (started_key (compute_period_start b.period today)) (fl.of_micros limit)
        before after b.soft_thresholds fired
]

pub record Check : Type 0 where
  pub dimension : Dimension
  pub limit : Option ℕ
  pub spent : ℕ
  pub projected : ℕ

-- `1 if projected_calls is None else projected_calls`
abbrev pub calls_of : Option ℕ → ℕ
calls_of none = 1
calls_of (some n) = n

-- float(limit_usd)
abbrev pub usd_limit : Floats → Option ℕ → Option ℕ
usd_limit fl none = none
usd_limit fl (some n) = some (fl.of_micros n)

-- dim_spent + dim_projected; the counts are below 2^53, where floats are exact
abbrev pub total : Floats → Dimension → ℕ → ℕ → ℕ
total fl usd a b = fl.add a b
total fl tokens a b = a + b
total fl calls a b = a + b

abbrev pub dimensions : Floats → Request → Budget → Usage → List Check
dimensions fl q b u =
    record {
      dimension = usd;
      limit = usd_limit fl b.limit_usd;
      spent = u.usd;
      projected = q.projected_cost_usd;
    }
    ∷ record {
      dimension = tokens;
      limit = b.limit_tokens;
      spent = u.tokens;
      projected = or_zero q.projected_tokens;
    }
    ∷ record {
      dimension = calls;
      limit = b.limit_calls;
      spent = u.calls;
      projected = calls_of q.projected_calls;
    }
    ∷ []

-- the loop over the dimensions of one budget
unfoldable pub check_dims : Floats → Budget → List Check → List Log × Verdict
check_dims fl b [] = ([], passed)
check_dims fl b (c ∷ cs) =
    let rest = check_dims fl b cs in
    elim c.limit [
      | none ↦ rest
      | some limit ↦
          if leb (total fl c.dimension c.spent c.projected) limit
          then rest
          else if str_eq b.action "warn"
          then (warned b.id c.dimension ∷ rest.0, rest.1)
          else (
            [],
            exceeded (record {
              budget = b;
              dimension = c.dimension;
              limit = limit;
              spent = c.spent;
              projected = c.projected;
            }),
          )
    ]

abbrev pub Answer : Type 0
Answer = Verdict × List Log × Fired

abbrev pub and_then : List Log → List Log × Verdict → Fired → Answer → Answer
and_then logs (more, passed) fired (v, rest, fired') = (v, logs ++ (more ++ rest), fired')
and_then logs (more, exceeded x) fired a = (exceeded x, logs ++ more, fired)
and_then logs (more, failed e) fired a = (failed e, logs ++ more, fired)

-- the loop over the budgets, for the usage that each one has
unfoldable pub check_each :
    Floats → Date → (Budget → Result Usage) → Request → List Budget → Fired → Answer
unfolding maybe_log_threshold check_dims
check_each fl today usage_of q [] fired = (passed, [], fired)
check_each fl today usage_of q (b ∷ bs) fired = elim (usage_of b) [
  | err e ↦ (failed e, [], fired)
  | ok u ↦
      let t = maybe_log_threshold fl today b u.usd (fl.add u.usd q.projected_cost_usd) fired in
      and_then t.0 (check_dims fl b (dimensions fl q b u)) t.1
        (check_each fl today usage_of q bs t.1)
]

-- the budgets in the order in which they are checked
unfoldable pub checked : Request → List Budget → List Budget
unfolding order_by list_for_scopes
checked q budgets = order_by guard_before (list_for_scopes q budgets)

-- `disabled` is the kill switch BUDGET_ENFORCEMENT_DISABLED
unfoldable pub check_budget :
    Floats → Bool → Date → List Budget → List Snapshot → List Run → Request → Fired → Answer
unfolding checked check_each current_usage
check_budget fl disabled today budgets snaps runs q fired =
    if q.has_override || disabled
    then (passed, [], fired)
    else check_each fl today (current_usage fl today snaps runs) q (checked q budgets) fired
