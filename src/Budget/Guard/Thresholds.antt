-- ===== src/Budget/Guard/Thresholds.antt =====
-- The soft thresholds in `check_budget` (src/pf_core/budget/check.py): `_maybe_log_threshold` and the set
-- of fired thresholds that one process keeps.
use pf_core.Prelude.{
  ℕ, ◌+◌, ◌≤◌, ◌≡◌, str_eq, &&_parts, ◌∙◌, ◌⊎◌, inl, inr, refl, Bool, true, false, not, ◌&&◌, ◌||◌,
  List, [], ◌∷◌, ◌++◌, ◌==◌, ==_iff, ltb, leb, arith, Bool-cases, Option-cases, if◌then◌else◌,
}
use pf_core.Result.{Result}
use pf_core.Result.Rules.{Result-cases}
use pf_core.Budget.Period.{Date, compute_period_start}
use pf_core.Budget.Usage.{Floats, Budget, Run, Usage, Snapshot, current_usage}
use pf_core.Budget.Guard.{
  Request, Verdict, passed, exceeded, failed, Log, crossed, warned, Fired, Check, fired_before,
  cross_each, maybe_log_threshold, started_key, dimensions, check_dims, check_each, check_budget,
  checked, and_then, Answer, total,
}

-- how often the crossing was logged
abbrev pub crossings : ℕ → ℕ → ℕ → List Log → ℕ
crossings i p f [] = 0
crossings i p f (crossed j q g ∷ l) =
    if i == j && (p == q && f == g) then 1 + crossings i p f l else crossings i p f l
crossings i p f (warned j d ∷ l) = crossings i p f l

-- at most one, none if it was logged before, and a logged one is remembered
abbrev pub IsOnce : ℕ → ℕ → ℕ → Fired → List Log → Fired → Type 0
IsOnce i p f before logs after =
    ((fired_before i p f before ≡ true)
      × (crossings i p f logs ≡ 0)
      × (fired_before i p f after ≡ true))
    ⊎ ((fired_before i p f before ≡ false)
        × (crossings i p f logs ≡ 0)
        × (fired_before i p f after ≡ false))
    ⊎ ((fired_before i p f before ≡ false)
        × (crossings i p f logs ≡ 1)
        × (fired_before i p f after ≡ true))

module _ (i p f : ℕ) where
  crossings-append :
      (xs ys : List Log) → crossings i p f (xs ++ ys) ≡ crossings i p f xs + crossings i p f ys
  crossings-append [] ys = omega arith
  crossings-append (crossed j q g ∷ l) ys = ground (arith, crossings-append l ys)
  crossings-append (warned j d ∷ l) ys = crossings-append l ys

  none-IsOnce :
      (before : Fired) (logs : List Log)
      → crossings i p f logs ≡ 0
      → IsOnce i p f before logs before
  none-IsOnce before logs h = elim (Bool-cases (fired_before i p f before)) [
    | inl e ↦ inl (e, h, e)
    | inr e ↦ inr (inl (e, h, e))
  ]

  append-IsOnce :
      (a b c : Fired) (xs ys : List Log)
      → IsOnce i p f a xs b
      → IsOnce i p f b ys c
      → IsOnce i p f a (xs ++ ys) c
  append-IsOnce a b c xs ys h k = ground (arith, crossings-append xs ys)

  cross_each-IsOnce :
      (fl : Floats) (j period limit before after : ℕ) (fs : List ℕ) (fired : Fired)
      → let t = cross_each fl j period limit before after fs fired in IsOnce i p f fired t.0 t.1
  unfolding cross_each
  cross_each-IsOnce fl j period limit before after [] fired = none-IsOnce fired [] refl
  cross_each-IsOnce fl j period limit before after (g ∷ gs) fired =
      elim (Bool-cases (
        ltb before (fl.scale limit g)
        && (leb (fl.scale limit g) after && not (fired_before j period g fired)))) [
          | inl e ↦
              rw (e, cross_each)
                (append-IsOnce fired ((j, period, g) ∷ fired) _ (crossed j period g ∷ [])
                  (cross_each fl j period limit before after gs ((j, period, g) ∷ fired)).0
                  (first_time e)
                  (cross_each-IsOnce fl j period limit before after gs ((j, period, g) ∷ fired)))
          | inr e ↦ rw (e, cross_each) (cross_each-IsOnce fl j period limit before after gs fired)
        ]
    where
      same_key :
          (i == j && (p == period && f == g)) ≡ true
          → fired_before j period g fired ≡ false
          → fired_before i p f fired ≡ false
      same_key s h =
          let q = &&_parts (i == j) (p == period && f == g) s in
          let r = &&_parts (p == period) (f == g) q.1 in
          (λ k.
            fired_before ((==_iff i j).0 q.0 k) ((==_iff p period).0 r.0 k) ((==_iff f g).0 r.1 k)
              fired)
          ∙ h

      first_time :
          (ltb before (fl.scale limit g)
              && (leb (fl.scale limit g) after && not (fired_before j period g fired)))
            ≡ true
          → IsOnce i p f fired (crossed j period g ∷ []) ((j, period, g) ∷ fired)
      first_time e = elim (Bool-cases (i == j && (p == period && f == g))) [
        | inl s ↦ inr (inr (same_key s (ground arith), rw s refl, rw s refl))
        | inr s ↦ rw s (none-IsOnce fired [] refl)
      ]

  maybe_log_threshold-IsOnce :
      (fl : Floats) (today : Date) (b : Budget) (before after : ℕ) (fired : Fired)
      → let t = maybe_log_threshold fl today b before after fired in IsOnce i p f fired t.0 t.1
  unfolding maybe_log_threshold
  maybe_log_threshold-IsOnce fl today b before after fired = elim (Option-cases b.limit_usd) [
    | inl e ↦ rw (e, maybe_log_threshold) (none-IsOnce fired [] refl)
    | inr (l, e) ↦
        rw (e, maybe_log_threshold)
          (cross_each-IsOnce fl b.id (started_key (compute_period_start b.period today))
            (fl.of_micros l) before after b.soft_thresholds fired)
  ]

  -- the warnings of the dimensions are of another sort
  crossings-check_dims :
      (fl : Floats) (b : Budget) (cs : List Check) → crossings i p f (check_dims fl b cs).0 ≡ 0
  unfolding check_dims
  crossings-check_dims fl b [] = refl
  crossings-check_dims fl b (c ∷ cs) = elim (Option-cases c.limit) [
    | inl n ↦ rw (n, check_dims) (crossings-check_dims fl b cs)
    | inr (l, n) ↦ elim (Bool-cases (leb (total fl c.dimension c.spent c.projected) l)) [
      | inl e ↦ rw (n, e, check_dims) (crossings-check_dims fl b cs)
      | inr e ↦ elim (Bool-cases (str_eq b.action "warn")) [
        | inl w ↦ rw (n, e, w, check_dims) (crossings-check_dims fl b cs)
        | inr w ↦ rw (n, e, w, check_dims) refl
      ]
    ]
  ]

  and_then-IsOnce :
      (a b : Fired) (logs : List Log) (m : List Log × Verdict) (rest : Answer)
      → IsOnce i p f a logs b
      → crossings i p f m.0 ≡ 0
      → IsOnce i p f b rest.1 rest.2
      → let t = and_then logs m b rest in IsOnce i p f a t.1 t.2
  and_then-IsOnce a b logs (more, passed) (v, l, c) h z k =
      append-IsOnce a b c logs (more ++ l) h (append-IsOnce b b c more l (none-IsOnce b more z) k)
  and_then-IsOnce a b logs (more, exceeded x) rest h z k =
      append-IsOnce a b b logs more h (none-IsOnce b more z)
  and_then-IsOnce a b logs (more, failed e) rest h z k =
      append-IsOnce a b b logs more h (none-IsOnce b more z)

  check_each-IsOnce :
      (fl : Floats) (today : Date) (usage_of : Budget → Result Usage) (q : Request)
      (bs : List Budget) (fired : Fired)
      → let t = check_each fl today usage_of q bs fired in IsOnce i p f fired t.1 t.2
  unfolding check_each
  check_each-IsOnce fl today usage_of q [] fired = none-IsOnce fired [] refl
  check_each-IsOnce fl today usage_of q (b ∷ bs) fired = elim (Result-cases (usage_of b)) [
    | inl (e, r) ↦ rw (r, check_each) (none-IsOnce fired [] refl)
    | inr (u, r) ↦
        let t = maybe_log_threshold fl today b u.usd (fl.add u.usd q.projected_cost_usd) fired in
        rw (r, check_each)
          (and_then-IsOnce fired t.1 t.0 (check_dims fl b (dimensions fl q b u))
            (check_each fl today usage_of q bs t.1)
            (maybe_log_threshold-IsOnce fl today b u.usd (fl.add u.usd q.projected_cost_usd) fired)
            (crossings-check_dims fl b (dimensions fl q b u))
            (check_each-IsOnce fl today usage_of q bs t.1))
  ]

-- the guard run for a list of calls, each on the tables and the day as they then are
abbrev pub Call : Type 0
Call = Date × List Budget × List Snapshot × List Run × Request

unfoldable pub check_calls : Floats → Bool → List Call → Fired → List Log × Fired
check_calls fl disabled [] fired = ([], fired)
check_calls fl disabled ((today, budgets, snaps, runs, q) ∷ calls) fired =
    let one = check_budget fl disabled today budgets snaps runs q fired in
    let rest = check_calls fl disabled calls one.2 in (one.1 ++ rest.0, rest.1)

module _ (fl : Floats) (i p f : ℕ) (disabled : Bool) where
  check_budget-IsOnce :
      (today : Date) (budgets : List Budget) (snaps : List Snapshot) (runs : List Run) (q : Request)
      (fired : Fired)
      → let t = check_budget fl disabled today budgets snaps runs q fired in
        IsOnce i p f fired t.1 t.2
  unfolding check_budget
  check_budget-IsOnce today budgets snaps runs q fired =
      elim (Bool-cases (q.has_override || disabled)) [
        | inl o ↦ rw (o, check_budget) (none-IsOnce i p f fired [] refl)
        | inr o ↦
            rw (o, check_budget)
              (check_each-IsOnce i p f fl today (current_usage fl today snaps runs) q
                (checked q budgets) fired)
      ]

  check_calls-IsOnce :
      (calls : List Call) (fired : Fired)
      → let t = check_calls fl disabled calls fired in IsOnce i p f fired t.0 t.1
  unfolding check_calls
  check_calls-IsOnce [] fired = none-IsOnce i p f fired [] refl
  check_calls-IsOnce ((today, budgets, snaps, runs, q) ∷ calls) fired =
      let one = check_budget fl disabled today budgets snaps runs q fired in
      append-IsOnce i p f fired one.2 (check_calls fl disabled calls one.2).1 one.1
        (check_calls fl disabled calls one.2).0
        (check_budget-IsOnce today budgets snaps runs q fired) (check_calls-IsOnce calls one.2)

-- However often the guard runs in one process, over any tables, days and calls: for a budget, a start of
-- its period and a fraction, `budget_threshold_crossed` is logged at most once.
pub check_calls-once :
    (fl : Floats) (i p f : ℕ) (disabled : Bool) (calls : List Call)
    → crossings i p f (check_calls fl disabled calls []).0 ≤ 1
check_calls-once fl i p f disabled calls =
    ground (arith, check_calls-IsOnce fl i p f disabled calls [])
