-- ===== src/Budget/Guard/Breach.antt =====
-- The exception CostBudgetExceeded of `check_budget` (src/pf_core/budget/check.py): the budget it is about
-- and the figures it reports.
use mathlib.Core.List.{Memᴰ}
use pf_core.Prelude.{
  ℕ, ◌+◌, ◌<◌, ◌≡◌, ◌⊎◌, inl, inr, refl, subst, false, Option, none, some, List, [], ◌∷◌, str_eq,
  leb, arith, All, Bool-cases, Option-cases,
}
use pf_core.Result.{Result, ok}
use pf_core.Result.Rules.{Result-cases}
use pf_core.Budget.Period.{Date}
use pf_core.Budget.Usage.{Floats, Budget, Usage, or_zero}
use pf_core.Budget.Guard.{
  Request, Verdict, passed, exceeded, failed, Excess, Log, Fired, Check, Dimension, usd, tokens,
  calls, calls_of, usd_limit, total, dimensions, check_dims, check_each, maybe_log_threshold,
  and_then, Answer,
}

-- What the exception says of the budget and the call: the dimension, with the limit of the budget's own
-- column for it, the usage, the projection, and that the sum of these two is past the limit.
abbrev pub Reports : Floats → Request → Usage → Excess → Dimension → Type 0
Reports fl q u x usd =
    ((n : ℕ) × (x.budget.limit_usd ≡ some n) × (x.limit ≡ fl.of_micros n))
    × (x.spent ≡ u.usd)
    × (x.projected ≡ q.projected_cost_usd)
    × (x.limit < fl.add u.usd q.projected_cost_usd)
Reports fl q u x tokens =
    (x.budget.limit_tokens ≡ some x.limit)
    × (x.spent ≡ u.tokens)
    × (x.projected ≡ or_zero q.projected_tokens)
    × (x.limit < u.tokens + or_zero q.projected_tokens)
Reports fl q u x calls =
    (x.budget.limit_calls ≡ some x.limit)
    × (x.spent ≡ u.calls)
    × (x.projected ≡ calls_of q.projected_calls)
    × (x.limit < u.calls + calls_of q.projected_calls)

-- the exception is about a budget that blocks, and reports its usage
abbrev pub IsBreach : Floats → (Budget → Result Usage) → Request → Excess → Type 0
IsBreach fl usage_of q x =
    (str_eq x.budget.action "warn" ≡ false)
    × ((u : Usage) × (usage_of x.budget ≡ ok u) × Reports fl q u x x.dimension)

exceeded_injective : (x y : Excess) → exceeded x ≡ exceeded y → x ≡ y
exceeded_injective x y e = cc

-- the exception for one dimension
abbrev blamed : Budget → Check → ℕ → Excess
blamed b c limit = record {
  budget = b;
  dimension = c.dimension;
  limit = limit;
  spent = c.spent;
  projected = c.projected;
}

-- what is so of the exception for a dimension whose limit is passed
abbrev Blames : Floats → Budget → (Excess → Type 0) → Check → Type 0
Blames fl b R c =
    (limit : ℕ)
    → c.limit ≡ some limit
    → limit < total fl c.dimension c.spent c.projected
    → R (blamed b c limit)

check_dims_exceeded :
    (fl : Floats) (b : Budget) (R : Excess → Type 0) (cs : List Check) {x : Excess}
    → All (Blames fl b R) cs
    → (check_dims fl b cs).1 ≡ exceeded x
    → (x.budget ≡ b) × (str_eq b.action "warn" ≡ false) × R x
unfolding check_dims
check_dims_exceeded fl b R [] r h = absurd (cc)
check_dims_exceeded fl b R (c ∷ cs) {x} (r, rs) h = elim (Option-cases c.limit) [
  | inl n ↦ check_dims_exceeded fl b R cs rs (rw (n, check_dims) at h)
  | inr (limit, n) ↦ elim (Bool-cases (leb (total fl c.dimension c.spent c.projected) limit)) [
    | inl l ↦ check_dims_exceeded fl b R cs rs (rw (n, l, check_dims) at h)
    | inr l ↦ elim (Bool-cases (str_eq b.action "warn")) [
      | inl w ↦ check_dims_exceeded fl b R cs rs (rw (n, l, w, check_dims) at h)
      | inr w ↦
          subst (λ y. (y.budget ≡ b) × (str_eq b.action "warn" ≡ false) × R y)
            (exceeded_injective (blamed b c limit) x (rw (n, l, w, check_dims) at h))
            (refl, w, r limit n (ground arith))
    ]
  ]
]

usd_limit-some :
    (fl : Floats) (o : Option ℕ) {limit : ℕ}
    → usd_limit fl o ≡ some limit
    → (n : ℕ) × (o ≡ some n) × (limit ≡ fl.of_micros n)
usd_limit-some fl none h = absurd (cc)
usd_limit-some fl (some n) h = (n, refl, cc)

dimensions-Reports :
    (fl : Floats) (q : Request) (b : Budget) (u : Usage)
    → All (Blames fl b (λ x. Reports fl q u x x.dimension)) (dimensions fl q b u)
dimensions-Reports fl q b u = (
  (λ limit e l. (usd_limit-some fl b.limit_usd e, refl, refl, l)),
  ((λ limit e l. (e, refl, refl, l)), ((λ limit e l. (e, refl, refl, l)), tt)),
)

pub and_then-exceeded :
    (logs : List Log) (m : List Log × Verdict) (fired : Fired) (a : Answer) {x : Excess}
    → (and_then logs m fired a).0 ≡ exceeded x
    → (m.1 ≡ exceeded x) ⊎ ((m.1 ≡ passed) × (a.0 ≡ exceeded x))
and_then-exceeded logs (more, passed) fired a h = inr (refl, h)
and_then-exceeded logs (more, exceeded x) fired a h = inl h
and_then-exceeded logs (more, failed e) fired a h = absurd (cc)

pub check_each_exceeded :
    (fl : Floats) (today : Date) (usage_of : Budget → Result Usage) (q : Request) (bs : List Budget)
    (fired : Fired) {x : Excess}
    → (check_each fl today usage_of q bs fired).0 ≡ exceeded x
    → Memᴰ x.budget bs × IsBreach fl usage_of q x
unfolding check_each
check_each_exceeded fl today usage_of q [] fired h = absurd (cc)
check_each_exceeded fl today usage_of q (b ∷ bs) fired {x} h = elim (Result-cases (usage_of b)) [
  | inl (e, r) ↦ absurd (cc (rw (r, check_each) at h))
  | inr (u, r) ↦
      let t = maybe_log_threshold fl today b u.usd (fl.add u.usd q.projected_cost_usd) fired in
      elim (and_then-exceeded t.0 (check_dims fl b (dimensions fl q b u)) t.1
        (check_each fl today usage_of q bs t.1) (rw (r, check_each) at h)) [
          | inl m ↦
              let (same, w, reports) =
                check_dims_exceeded fl b (λ y. Reports fl q u y y.dimension) (dimensions fl q b u)
                  (dimensions-Reports fl q b u) m in
              (Memᴰ.head same, (rw same w, (u, rw same r, reports)))
          | inr (m, n) ↦
              let (found, breach) = check_each_exceeded fl today usage_of q bs t.1 n in
              (Memᴰ.tail found, breach)
        ]
]
