-- ===== src/Budget/Guard/Caps.antt =====
-- The limits in `check_budget` (src/pf_core/budget/check.py): the loops over budgets and dimensions.
use mathlib.Core.List.{Memᴰ}
use pf_core.Prelude.{
  ℕ, ◌+◌, ◌≤◌, ◌≡◌, ◌⊎◌, ◌↔◌, inl, inr, refl, Bool, true, false, ◌&&◌, ◌||◌, Option, none, some,
  List, [], ◌∷◌, str_eq, arith, All, All-of_mem, All-mem, Bool-cases,
}
use pf_core.Result.{Result, ok}
use pf_core.Result.Rules.{Result-cases}
use pf_core.Sql.{order_by}
use pf_core.Sql.Rows.{mem-select, All-of_select}
use pf_core.Sql.Sorted.{mem-order_by, All-order_by}
use pf_core.Budget.Period.{Date}
use pf_core.Budget.Usage.{Floats, Budget, Run, Usage, Snapshot, or_zero, current_usage}
use pf_core.Budget.Guard.Breach.{IsBreach, check_each_exceeded}
use pf_core.Budget.Guard.{
  Request, Verdict, passed, exceeded, failed, Excess, Log, Fired, calls_of, dimensions, check_dims,
  check_each, checked, check_budget, maybe_log_threshold, list_for_scopes, applies, guard_before,
  and_then, Answer,
}

-- the limit, where there is one, leaves room
abbrev pub Within : Option ℕ → ℕ → Type 0
Within none n = Unit
Within (some limit) n = n ≤ limit

-- the same for a limit in dollars, as floats
abbrev pub WithinUsd : Floats → Option ℕ → ℕ → Type 0
WithinUsd fl none x = Unit
WithinUsd fl (some limit) x = x ≤ fl.of_micros limit

-- the planned call leaves the budget within each of its limits
abbrev pub Fits : Floats → Request → Budget → Usage → Type 0
Fits fl q b u =
    WithinUsd fl b.limit_usd (fl.add u.usd q.projected_cost_usd)
    × Within b.limit_tokens (u.tokens + or_zero q.projected_tokens)
    × Within b.limit_calls (u.calls + calls_of q.projected_calls)

-- a budget that only warns, or that the call fits
abbrev pub Clears : Floats → (Budget → Result Usage) → Request → Budget → Type 0
Clears fl usage_of q b =
    (u : Usage) × (usage_of b ≡ ok u) × ((str_eq b.action "warn" ≡ true) ⊎ Fits fl q b u)

check_dims_passed :
    (fl : Floats) (q : Request) (b : Budget) (u : Usage)
    → (check_dims fl b (dimensions fl q b u)).1 ≡ passed
    → (str_eq b.action "warn" ≡ true) ⊎ Fits fl q b u
unfolding check_dims
check_dims_passed fl q b u h = ground arith

check_dims_passes :
    (fl : Floats) (q : Request) (b : Budget) (u : Usage)
    → (str_eq b.action "warn" ≡ true) ⊎ Fits fl q b u
    → (check_dims fl b (dimensions fl q b u)).1 ≡ passed
unfolding check_dims
check_dims_passes fl q b u h = ground arith

and_then-passed :
    (logs : List Log) (m : List Log × Verdict) (fired : Fired) (a : Answer)
    → (and_then logs m fired a).0 ≡ passed
    → (m.1 ≡ passed) × (a.0 ≡ passed)
and_then-passed logs (more, passed) fired a h = (refl, h)
and_then-passed logs (more, exceeded x) fired a h = absurd (cc)
and_then-passed logs (more, failed e) fired a h = absurd (cc)

and_then-passes :
    (logs : List Log) (m : List Log × Verdict) (fired : Fired) (a : Answer)
    → m.1 ≡ passed
    → a.0 ≡ passed
    → (and_then logs m fired a).0 ≡ passed
and_then-passes logs (more, passed) fired a h k = k
and_then-passes logs (more, exceeded x) fired a h k = absurd (cc)
and_then-passes logs (more, failed e) fired a h k = absurd (cc)

module _ (fl : Floats) (today : Date) (usage_of : Budget → Result Usage) (q : Request) where
  check_each_passed :
      (bs : List Budget) (fired : Fired)
      → (check_each fl today usage_of q bs fired).0 ≡ passed
      → All (Clears fl usage_of q) bs
  unfolding check_each
  check_each_passed [] fired h = tt
  check_each_passed (b ∷ bs) fired h = elim (Result-cases (usage_of b)) [
    | inl (e, r) ↦ absurd (cc)
    | inr (u, r) ↦
        let t = maybe_log_threshold fl today b u.usd (fl.add u.usd q.projected_cost_usd) fired in
        let (m, n) =
          and_then-passed t.0 (check_dims fl b (dimensions fl q b u)) t.1
            (check_each fl today usage_of q bs t.1) (rw (r, check_each) at h) in
        ((u, r, check_dims_passed fl q b u m), check_each_passed bs t.1 n)
  ]

  check_each_passes :
      (bs : List Budget) (fired : Fired)
      → All (Clears fl usage_of q) bs
      → (check_each fl today usage_of q bs fired).0 ≡ passed
  unfolding check_each
  check_each_passes [] fired h = refl
  check_each_passes (b ∷ bs) fired ((u, r, c), rest) =
      let t = maybe_log_threshold fl today b u.usd (fl.add u.usd q.projected_cost_usd) fired in
      rw (r, check_each)
        (and_then-passes t.0 (check_dims fl b (dimensions fl q b u)) t.1
          (check_each fl today usage_of q bs t.1) (check_dims_passes fl q b u c)
          (check_each_passes bs t.1 rest))

-- the budget applies to the call
abbrev pub IsApplied : Request → List Budget → Budget → Type 0
IsApplied q budgets b = Memᴰ b budgets × ((b.enabled && applies q b.scope) ≡ true)

module _ {ℓ} (q : Request) (budgets : List Budget) (P : Budget → Type ℓ) where
  All-checked : ((b : Budget) → IsApplied q budgets b → P b) → All P (checked q budgets)
  unfolding checked list_for_scopes
  All-checked h = All-order_by P guard_before (list_for_scopes q budgets) (
      All-of_mem P (list_for_scopes q budgets) λ b m. h b (
        All-mem (λ x. Memᴰ x budgets × ((x.enabled && applies q x.scope) ≡ true))
          (list_for_scopes q budgets) (All-of_select (λ x. x.enabled && applies q x.scope) budgets)
          m))

  checked-All : All P (checked q budgets) → (b : Budget) → IsApplied q budgets b → P b
  unfolding checked list_for_scopes
  checked-All h b (m, e) = All-mem P (order_by guard_before (list_for_scopes q budgets)) h (
      mem-order_by guard_before (list_for_scopes q budgets)
        (mem-select (λ x. x.enabled && applies q x.scope) budgets m e))

-- Without an override and with the guard enabled, `check_budget` returns without an exception exactly
-- when each enabled budget that applies to the call only warns or has room for the call within each
-- of its limits, on the usage that `current_usage` gives for it; dollars are added and compared as floats,
-- whatever their rounding.
pub check_budget-Clears :
    (fl : Floats) (today : Date) (budgets : List Budget) (snaps : List Snapshot) (runs : List Run)
    (q : Request) (fired : Fired)
    → q.has_override ≡ false
    → ((check_budget fl false today budgets snaps runs q fired).0 ≡ passed)
      ↔ ((b : Budget) → IsApplied q budgets b → Clears fl (current_usage fl today snaps runs) q b)
unfolding check_budget
check_budget-Clears fl today budgets snaps runs q fired o = rw o (
  (λ h. checked-All q budgets (Clears fl (current_usage fl today snaps runs) q) (
      check_each_passed fl today (current_usage fl today snaps runs) q (checked q budgets) fired
        h)),
  λ h.
      check_each_passes fl today (current_usage fl today snaps runs) q (checked q budgets) fired
        (All-checked q budgets (Clears fl (current_usage fl today snaps runs) q) h),
)

-- When `check_budget` raises CostBudgetExceeded, the exception names an enabled budget that applies to
-- the call and does not only warn. It reports a dimension in which that budget has a limit, with this
-- limit, the usage that `current_usage` gives and the projection of the call, and usage and projection
-- together are past the limit; dollars are added and compared as floats, whatever their rounding.
pub check_budget-IsBreach :
    (fl : Floats) (disabled : Bool) (today : Date) (budgets : List Budget) (snaps : List Snapshot)
    (runs : List Run) (q : Request) (fired : Fired) {x : Excess}
    → (check_budget fl disabled today budgets snaps runs q fired).0 ≡ exceeded x
    → IsApplied q budgets x.budget × IsBreach fl (current_usage fl today snaps runs) q x
unfolding check_budget
check_budget-IsBreach fl disabled today budgets snaps runs q fired {x} h =
    elim (Bool-cases (q.has_override || disabled)) [
      | inl o ↦ absurd (cc (rw (o, check_budget) at h))
      | inr o ↦
          let (found, breach) =
            check_each_exceeded fl today (current_usage fl today snaps runs) q (checked q budgets)
              fired (rw (o, check_budget) at h) in
          (
            All-mem (IsApplied q budgets) (checked q budgets)
                (All-checked q budgets (IsApplied q budgets) (λ b a. a)) found,
            breach,
          )
    ]
