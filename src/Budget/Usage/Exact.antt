-- ===== src/Budget/Usage/Exact.antt =====
-- Snapshot plus live delta (`current_usage` of src/pf_core/budget/check.py) and the aggregate.
use pf_core.Prelude.{
  ℕ, ◌+◌, ◌≤◌, ◌<◌, ◌≡◌, ◌∙◌, refl, ap, subst, sym, Bool, true, false, ◌&&◌, none, some, List, [],
  ◌∷◌, ◌++◌, arith, ltb, leb, All, Bool-cases, Option-cases, ◌⊎◌, inl, inr,
}
use pf_core.Result.{Result, ok, ◌>>=◌}
use pf_core.Result.Rules.{ok_injective}
use pf_core.Sql.{first, update}
use pf_core.Sql.Rows.{first-append}
use pf_core.Budget.Period.{Date, key, midnight, compute_period_start, compute_period_end}
use pf_core.Budget.Usage.{
  Floats, floated, Scope, Budget, Run, Usage, Snapshot, sum_usage, in_window, in_delta, in_scope,
  counts, add_run, plus_snapshot, is_known, aggregate_usage, get_snapshot, snapshot_is,
  current_usage, upsert_snapshot, written, refresh_one, zero_usage,
}

abbrev pub plus : Usage → Usage → Usage
plus u v = record { usd = u.usd + v.usd; tokens = u.tokens + v.tokens; calls = u.calls + v.calls }

add_run-plus : (r : Run) (u v : Usage) → plus (add_run r u) v ≡ add_run r (plus u v)
add_run-plus r u v = ground arith

add_run-plus_right : (r : Run) (u v : Usage) → plus u (add_run r v) ≡ add_run r (plus u v)
add_run-plus_right r u v = ground arith

pub sum_usage-append :
    (p : Run → Bool) (xs ys : List Run)
    → sum_usage p (xs ++ ys) ≡ plus (sum_usage p xs) (sum_usage p ys)
unfolding sum_usage
sum_usage-append p [] ys = ground arith
sum_usage-append p (x ∷ xs) ys = elim (Bool-cases (p x)) [
  | inl e ↦
      rw (e, sum_usage-append p xs ys) (sym (add_run-plus x (sum_usage p xs) (sum_usage p ys)))
  | inr e ↦ rw e (sum_usage-append p xs ys)
]

-- `q` decides as one of two tests that never hold together
abbrev Splits : (Run → Bool) → (Run → Bool) → (Run → Bool) → Run → Type 0
Splits p q s r = ((p r ≡ true) × (q r ≡ true) × (s r ≡ false)) ⊎ ((p r ≡ false) × (q r ≡ s r))

sum_usage-split :
    (p q s : Run → Bool) (xs : List Run)
    → ((r : Run) → Splits p q s r)
    → sum_usage q xs ≡ plus (sum_usage p xs) (sum_usage s xs)
unfolding sum_usage
sum_usage-split p q s [] h = refl
sum_usage-split p q s (x ∷ xs) h = elim (h x) [
  | inl (a, b, c) ↦
      rw (a, b, c, sum_usage-split p q s xs h)
        (sym (add_run-plus x (sum_usage p xs) (sum_usage s xs)))
  | inr (a, b) ↦
      rw (a, b)
        (elim (Bool-cases (s x)) [
          | inl e ↦
              rw (e, sum_usage-split p q s xs h)
                (sym (add_run-plus_right x (sum_usage p xs) (sum_usage s xs)))
          | inr e ↦ rw e (sum_usage-split p q s xs h)
        ])
]

sum_usage_none :
    (p : Run → Bool) (xs : List Run) → All (λ r. p r ≡ false) xs → sum_usage p xs ≡ zero_usage
unfolding sum_usage
sum_usage_none p [] h = refl
sum_usage_none p (x ∷ xs) h = rw h.0 (sum_usage_none p xs h.1)

plus_zero : (u : Usage) → plus u zero_usage ≡ u
plus_zero u = ground arith

split_tests :
    (lo hi c t : ℕ) (k i : Bool)
    → lo ≤ c
    → (((leb lo t && ltb t hi && k && ltb t c && i) ≡ true)
        × ((leb lo t && ltb t hi && k && true && i) ≡ true)
        × ((leb c t && ltb t hi && k && i) ≡ false))
      ⊎ (((leb lo t && ltb t hi && k && ltb t c && i) ≡ false)
          × ((leb lo t && ltb t hi && k && true && i) ≡ (leb c t && ltb t hi && k && i)))
split_tests lo hi c t false i h = inr (ground arith, ground arith)
split_tests lo hi c t true false h = inr (ground arith, ground arith)
split_tests lo hi c t true true h = elim (Bool-cases (leb lo t && ltb t hi && ltb t c)) [
  | inl e ↦ inl (ground arith, ground arith, ground arith)
  | inr e ↦ inr (ground arith, ground arith)
]

-- the window up to the cutoff, and the delta from it, split the period
window-Splits :
    (s : Scope) (start end' : Date) (c : ℕ) (r : Run)
    → midnight start ≤ c
    → Splits (in_window s start end' (some c)) (in_window s start end' none) (in_delta s c end') r
window-Splits s start end' c r h =
    split_tests (midnight start) (midnight end') c r.created_at (counts r) (in_scope s r) h

late : (lo hi c t : ℕ) (k i : Bool) → c ≤ t → (leb lo t && ltb t hi && k && ltb t c && i) ≡ false
late lo hi c t k i h = elim (Bool-cases (ltb t c)) [
  | inl e ↦ absurd (ground arith)
  | inr e ↦ ground arith
]

written_is :
    (fl : Floats) (b start : ℕ) (u : Usage) (c : ℕ)
    → snapshot_is b start (written fl b start u c) ≡ true
written_is fl b start u c = ground arith

replaced :
    (fl : Floats) (b start : ℕ) (u : Usage) (c : ℕ) (snaps : List Snapshot) {s : Snapshot}
    → first (snapshot_is b start) snaps ≡ some s
    → first (snapshot_is b start) (update (snapshot_is b start) (λ s. written fl b start u c) snaps)
      ≡ some (written fl b start u c)
unfolding first update
replaced fl b start u c [] e = absurd (cc)
replaced fl b start u c (x ∷ xs) e = elim (Bool-cases (snapshot_is b start x)) [
  | inl t ↦ rw (t, written_is fl b start u c) refl
  | inr t ↦ rw (t, t) (replaced fl b start u c xs (rw t at e))
]

-- a snapshot that was just written is the one that is read
get-upsert :
    (fl : Floats) (b start : ℕ) (u : Usage) (c : ℕ) (snaps : List Snapshot)
    → get_snapshot b start (upsert_snapshot fl b start u c snaps) ≡ some (written fl b start u c)
unfolding get_snapshot upsert_snapshot
get-upsert fl b start u c snaps = elim (Option-cases (first (snapshot_is b start) snaps)) [
  | inl e ↦
      rw (e, upsert_snapshot)
        (first-append (snapshot_is b start) snaps (written fl b start u c ∷ [])
          ∙ rw e (rw (written_is fl b start u c) refl))
  | inr (s, e) ↦ rw (e, upsert_snapshot) (replaced fl b start u c snaps e)
]

module _ (b : Budget) (start end' : Date) (c : ℕ) (old newer : List Run)
    (begun : midnight start ≤ c) (fresh : All (λ r. c ≤ r.created_at) newer) where
  window_old :
      sum_usage (in_window b.scope start end' (some c)) (old ++ newer)
      ≡ sum_usage (in_window b.scope start end' (some c)) old
  window_old =
      sum_usage-append _ old newer
      ∙ rw (sum_usage_none (in_window b.scope start end' (some c)) newer (All-map newer fresh))
          (plus_zero _)
    where
      All-map :
          (xs : List Run)
          → All (λ r. c ≤ r.created_at) xs
          → All (λ r. in_window b.scope start end' (some c) r ≡ false) xs
      All-map [] h = tt
      All-map (r ∷ rs) h = (
        late (midnight start) (midnight end') c r.created_at (counts r) (in_scope b.scope r) h.0,
        All-map rs h.1,
      )

  split_sums :
      plus
        (sum_usage (in_window b.scope start end' (some c)) old)
        (sum_usage (in_delta b.scope c end') (old ++ newer))
      ≡ sum_usage (in_window b.scope start end' none) (old ++ newer)
  split_sums = sym (
      sum_usage-split (in_window b.scope start end' (some c)) (in_window b.scope start end' none)
        (in_delta b.scope c end') (old ++ newer) (λ r. window-Splits b.scope start end' c r begun)
      ∙ rw window_old refl)

-- A dollar amount below 10^8, read as a float and written to Numeric(12, 4), is the nearest multiple of
-- a hundred micro-dollars.
abbrev pub IsNearest : Floats → Type 0
IsNearest fl =
    (m : ℕ)
    → m < 100000000000000
    → (m ≤ fl.stored (fl.of_micros m) + 50) × (fl.stored (fl.of_micros m) ≤ m + 50)

-- The usage that is seen and the aggregate: the same counts, and the dollars up to the rounding of the
-- snapshot's column, half of a hundred micro-dollars, and of the floats that are then added.
pub record Agree (fl : Floats) (seen aggregate : Result Usage) : Type 0 where
  pub tokens : ℕ
  pub calls : ℕ
  -- micro-dollars: of the snapshot, of the runs since then, of all runs
  pub booked : ℕ
  pub since : ℕ
  pub all : ℕ
  pub seen_is :
      seen
      ≡ ok (record {
        usd = fl.add (fl.of_micros booked) (fl.of_micros since);
        tokens = tokens;
        calls = calls;
      })
  pub aggregate_is :
      aggregate ≡ ok (record { usd = fl.of_micros all; tokens = tokens; calls = calls })
  pub at_most : booked + since ≤ all + 50
  pub at_least : all ≤ booked + since + 50

sums-Agree :
    (fl : Floats) (b : ℕ) (start c : ℕ) (before since all : Usage)
    → IsNearest fl
    → before.usd < 100000000000000
    → plus before since ≡ all
    → Agree fl
        (ok (plus_snapshot fl (written fl b start (floated fl before) c) since))
        (ok (floated fl all))
sums-Agree fl b start c before since all near small e =
    subst
      (λ x.
        Agree fl (ok (plus_snapshot fl (written fl b start (floated fl before) c) since))
          (ok (floated fl x)))
      e
      (record {
        tokens = before.tokens + since.tokens;
        calls = before.calls + since.calls;
        booked = fl.stored (fl.of_micros before.usd);
        since = since.usd;
        all = before.usd + since.usd;
        seen_is = refl;
        aggregate_is = refl;
        at_most = omega (arith, near before.usd small);
        at_least = omega (arith, near before.usd small);
      })

-- A budget of a recognised scope, its snapshot refreshed at a cutoff not before the start of the period,
-- and read on any day of the same period: against the aggregate over all runs of the period, those
-- that the refresh saw and those added later, which must not be created before the cutoff, the usage
-- that the guard sees has the same tokens and calls, each run counted once, and its dollars are the sum
-- of two floats, the snapshot's and the later runs', whose amounts together differ from the aggregate's
-- by at most 50 micro-dollars, if the column rounds an amount below 10^8 dollars to the nearest one.
pub current_usage-refresh_one :
    (fl : Floats) (b : Budget) (today today' start end' : Date) (c : ℕ) (old newer : List Run)
    (snaps snaps' : List Snapshot) (n : ℕ)
    → IsNearest fl
    → (sum_usage (in_window b.scope start end' (some c)) old).usd < 100000000000000
    → is_known b.scope ≡ true
    → compute_period_start b.period today ≡ ok start
    → compute_period_start b.period today' ≡ ok start
    → compute_period_end b.period start ≡ ok end'
    → midnight start ≤ c
    → All (λ r. c ≤ r.created_at) newer
    → refresh_one fl today c old b snaps ≡ ok (snaps', n)
    → Agree fl
        (current_usage fl today' snaps' (old ++ newer) b)
        (aggregate_usage fl b start end' none (old ++ newer))
unfolding current_usage refresh_one aggregate_usage ◌>>=◌
current_usage-refresh_one fl b today today' start end' c old newer snaps snaps' n near small known s
      s' e begun fresh done =
    subst
      (λ l.
        Agree fl (current_usage fl today' l (old ++ newer) b)
          (aggregate_usage fl b start end' none (old ++ newer)))
      stored
      (rw (s', e, get-upsert fl b.id (key start) _ c snaps, known)
        (sums-Agree fl b.id (key start) c _ _ _ near small
          (split_sums b start end' c old newer begun fresh)))
  where
    stored :
        upsert_snapshot fl b.id
          (key start)
          (floated fl (sum_usage (in_window b.scope start end' (some c)) old))
          c
          snaps
        ≡ snaps'
    stored = ap (λ (p : List Snapshot × ℕ). p.0) (ok_injective _ _ (rw (s, e, known) at done))
