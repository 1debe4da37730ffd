-- ===== src/Budget/Tests.antt =====
-- Runs of the budget guard at concrete inputs.
use pf_core.Prelude.{
  All, ◌⊎◌, ℕ, ◌+◌, ◌*◌, ◌/◌, ◌≤◌, ◌<◌, ◌≡◌, ◌↔◌, ◌++◌, refl, true, false, none, some, List, [],
  ◌∷◌, arith,
}
use pf_core.Result.{◌>>=◌}
use pf_core.Budget.Period.{
  key, monthly, Date, IsDate, midnight, compute_period_start, compute_period_end, days_in_month,
}
use pf_core.Budget.Period.Bounds.{SamePeriod, period_exact}
use pf_core.Budget.Usage.{
  agent, Floats, Budget, Run, Snapshot, sum_usage, current_usage, aggregate_usage, refresh_one,
  in_scope,
}
use pf_core.Budget.Usage.Doubles.{doubles, nearest}
use pf_core.Budget.Usage.Exact.{Agree, IsNearest, current_usage-refresh_one}
use pf_core.Budget.Sync.{ScopeKey, Limits, Desired, BudgetRow, wanted, sync_from_desired}
use pf_core.Budget.Sync.Upserts.{InForce}
use pf_core.Budget.Sync.Caps.{sync_from_desired-InForce}
use pf_core.Budget.Guard.Thresholds.{Call, crossings, check_calls, check_calls-once}
use pf_core.Budget.Guard.{Request, Excess, passed, check_budget, usd}
use pf_core.Budget.Guard.Breach.{IsBreach}
use pf_core.Budget.Guard.Caps.{Clears, IsApplied, check_budget-Clears, check_budget-IsBreach}

-- floats in thousandths of a micro-dollar whose sums round down to a multiple of eight
abbrev coarse : Floats
coarse = record {
  of_micros = λ m. m * 1000;
  add = λ a b. (a + b) / 8 * 8;
  scale = λ a f. a * f / 1000;
  stored = λ x. (x / 1000 + 50) / 100 * 100;
}

coarse-IsNearest : IsNearest coarse
coarse-IsNearest m h = (omega arith, omega arith)

abbrev new_year : Date
new_year = record { year = 2026; month = 1; day = 1 }

abbrev mid_month : Date
mid_month = record { year = 2026; month = 1; day = 15 }

abbrev cap : Budget
cap = record {
  id = 1;
  scope = agent "writer";
  period = monthly;
  limit_usd = some 1000;
  limit_tokens = none;
  limit_calls = some 100;
  soft_thresholds = 500 ∷ 800 ∷ [];
  action = "block";
  enabled = true;
}

abbrev run_at : ℕ → ℕ → Run
run_at t cost = record {
  agent = some "writer";
  job = none;
  tags = [];
  created_at = t;
  status = "success";
  cost_usd = some cost;
  prompt_tokens = some 10;
  completion_tokens = none;
  cache_read_tokens = none;
  cache_write_tokens = none;
}

abbrev noon : ℕ
noon = midnight new_year + 43200000000

abbrev early : List Run
early = run_at (midnight new_year) 400 ∷ run_at noon 300 ∷ []

abbrev late : List Run
late = run_at (noon + 1) 200 ∷ []

current_usage-refresh_one_example :
    (snaps' : List Snapshot) × Agree coarse
      (current_usage coarse mid_month snaps' (early ++ late) cap)
      (aggregate_usage coarse cap new_year (record new_year { month = 2 }) none (early ++ late))
unfolding compute_period_start compute_period_end refresh_one ◌>>=◌ sum_usage in_scope
current_usage-refresh_one_example = (
  _,
  current_usage-refresh_one coarse cap new_year mid_month new_year (record new_year { month = 2 })
      noon early late [] _ _ coarse-IsNearest (omega arith) refl refl refl refl (omega arith)
      (omega arith, tt) refl,
)

mid_month-IsDate : IsDate mid_month
unfolding days_in_month
mid_month-IsDate = record {
  month_pos = omega arith;
  month_le = omega arith;
  day_pos = omega arith;
  day_le = omega arith;
}

period_exact_example :
    ((midnight new_year ≤ midnight mid_month + 5)
      × (midnight mid_month + 5 < midnight (record new_year { month = 2 })))
    ↔ SamePeriod monthly mid_month mid_month
unfolding compute_period_start compute_period_end
period_exact_example =
    period_exact monthly mid_month new_year (record new_year { month = 2 }) mid_month 5
      mid_month-IsDate mid_month-IsDate (omega arith) refl refl

abbrev call_of : ℕ → Request
call_of cost = record {
  agent_type = some "writer";
  projected_cost_usd = cost;
  projected_tokens = none;
  projected_calls = none;
  job_id = none;
  job_kind = none;
  tags = [];
  has_override = false;
}

check_budget-Clears_example :
    ((check_budget doubles false mid_month
        (cap ∷ [])
        []
        early
        (call_of (doubles.of_micros 300))
        []).0
      ≡ passed)
    ↔ ((b : Budget)
        → IsApplied (call_of (doubles.of_micros 300)) (cap ∷ []) b
        → Clears doubles
            (current_usage doubles mid_month [] early)
            (call_of (doubles.of_micros 300))
            b)
check_budget-Clears_example =
    check_budget-Clears doubles mid_month (cap ∷ []) [] early (call_of (doubles.of_micros 300)) []
      refl

-- as floats, 0.1 and 0.2 dollars together are past a limit of 0.3 dollars
abbrev three_tenths : Budget
three_tenths = record cap { limit_usd = some 300000 }

abbrev one_tenth : List Run
one_tenth = run_at noon 100000 ∷ []

abbrev two_tenths : Request
two_tenths = call_of (doubles.of_micros 200000)

abbrev breach : Excess
breach = record {
  budget = three_tenths;
  dimension = usd;
  limit = doubles.of_micros 300000;
  spent = doubles.of_micros 100000;
  projected = doubles.of_micros 200000;
}

check_budget-IsBreach_example :
    IsApplied two_tenths (three_tenths ∷ []) three_tenths
    × IsBreach doubles (current_usage doubles mid_month [] one_tenth) two_tenths breach
unfolding check_budget ◌>>=◌ compute_period_start compute_period_end in_scope nearest
check_budget-IsBreach_example =
    check_budget-IsBreach doubles false mid_month (three_tenths ∷ []) [] one_tenth two_tenths []
      {x = breach} refl

abbrev writer_key : ScopeKey
writer_key = record { scope_kind = "agent"; scope_value = some "writer"; period = "daily" }

abbrev global_key : ScopeKey
global_key = record { scope_kind = "global"; scope_value = none; period = "monthly" }

abbrev usd_only : ℕ → Limits
usd_only n = record {
  limit_usd = some n;
  limit_tokens = none;
  limit_calls = none;
  soft_thresholds = none;
  action = "block";
}

abbrev old_rows : List BudgetRow
old_rows =
    record { id = 1; key = writer_key; limits = usd_only 5; enabled = true; updated_at = 0 }
    ∷ record { id = 2; key = global_key; limits = usd_only 9; enabled = true; updated_at = 0 }
    ∷ []

abbrev raised_cap : List Desired
raised_cap = record { key = writer_key; limits = usd_only 7 } ∷ []

sync_from_desired-InForce_example :
    InForce raised_cap (sync_from_desired 10 raised_cap old_rows 3).rows
    × ((raised_cap ≡ []) × ((sync_from_desired 10 raised_cap old_rows 3).rows ≡ old_rows)
        ⊎ All
            (λ r. r.enabled ≡ true → wanted raised_cap r.key ≡ true)
            (sync_from_desired 10 raised_cap old_rows 3).rows)
sync_from_desired-InForce_example =
    sync_from_desired-InForce 10 raised_cap old_rows 3
      (((refl, tt), (tt, tt)), (omega arith, (omega arith, tt)))

abbrev two_calls : List Call
two_calls =
    (mid_month, cap ∷ [], [], early, call_of (doubles.of_micros 150))
    ∷ (mid_month, cap ∷ [], [], early, call_of (doubles.of_micros 200))
    ∷ []

check_calls-once_example :
    crossings 1 (key new_year) 800 (check_calls doubles false two_calls []).0 ≤ 1
check_calls-once_example = check_calls-once doubles 1 (key new_year) 800 false two_calls
