-- ===== src/Budget/Period/Bounds.antt =====
-- The timestamps between the two period helpers of src/pf_core/budget/check.py.
use pf_core.Prelude.{
  ℕ, ◌+◌, ◌*◌, ◌≤◌, ◌<◌, ◌≡◌, ◌⊎◌, ◌↔◌, true, false, ltb, arith, inl, inr, Bool-cases, subst, sym,
}
use pf_core.Result.{ok}
use pf_core.Budget.Period.{
  Period, daily, monthly, unknown, Date, IsDate, key, midnight, days_in_month, next_day,
  compute_period_start, compute_period_end,
}

days_in_month-le : (y m : ℕ) → days_in_month y m ≤ 31
unfolding days_in_month
days_in_month-le y m = ground arith

days_in_month-pos : (y m : ℕ) → 1 ≤ days_in_month y m
unfolding days_in_month
days_in_month-pos y m = ground arith

-- the day or the month that a period of this kind shares
abbrev pub SamePeriod : Period → Date → Date → Type 0
SamePeriod daily d e = (d.year ≡ e.year) × (d.month ≡ e.month) × (d.day ≡ e.day)
SamePeriod monthly d e = (d.year ≡ e.year) × (d.month ≡ e.month)
SamePeriod unknown d e = ⊥

pub next_day-IsDate : (d : Date) → IsDate d → IsDate (next_day d)
unfolding next_day
next_day-IsDate d v =
    ground (arith, days_in_month-pos d.year (d.month + 1), days_in_month-pos (d.year + 1) 1)

ok_inj : (a b : Date) → ok a ≡ ok b → a ≡ b
ok_inj a b e = cc

-- midnights order days as keys do, whatever the time of day
below_midnight :
    (a b time : ℕ) → time < 86400000000 → (a * 86400000000 + time < b * 86400000000) ↔ (a < b)
below_midnight a b time h = (λ k. omega arith, λ k. omega arith)

from_midnight :
    (a b time : ℕ) → time < 86400000000 → (a * 86400000000 ≤ b * 86400000000 + time) ↔ (a ≤ b)
from_midnight a b time h = (λ k. omega arith, λ k. omega arith)

-- a valid date is determined by its key, digit by digit
key_parts :
    (d e : Date)
    → IsDate d
    → IsDate e
    → key d ≡ key e
    → (d.year ≡ e.year) × (d.month ≡ e.month) × (d.day ≡ e.day)
key_parts d e v w h =
    omega (arith, days_in_month-le d.year d.month, days_in_month-le e.year e.month)

same_month :
    (d e : Date)
    → IsDate d
    → IsDate e
    → (d.year * 13 + d.month) ≡ (e.year * 13 + e.month)
    → (d.year ≡ e.year) × (d.month ≡ e.month)
same_month d e v w h = omega arith

-- no valid day lies between a day and the next
between_days :
    (t d : Date) → IsDate t → IsDate d → key t ≤ key d → key d < key (next_day t) → key d ≡ key t
unfolding next_day
between_days t d v w lo hi = elim (Bool-cases (ltb t.day (days_in_month t.year t.month))) [
  | inl e ↦ ground arith
  | inr e ↦
      let bound = days_in_month-le d.year d.month in
      let bound' = days_in_month-le t.year t.month in
      let same = same_month d t w v (in_month (Bool-cases (ltb t.month 12)) e bound) in
      let last : d.day ≤ days_in_month t.year t.month = rw (← same.0, ← same.1) w.day_le in
      ground arith
]
  where
    in_month :
        (ltb t.month 12 ≡ true) ⊎ (ltb t.month 12 ≡ false)
        → ltb t.day (days_in_month t.year t.month) ≡ false
        → days_in_month d.year d.month ≤ 31
        → (d.year * 13 + d.month) ≡ (t.year * 13 + t.month)
    in_month c e b = ground (arith, days_in_month-le t.year t.month)

key-next_day : (t : Date) → IsDate t → key t < key (next_day t)
unfolding next_day
key-next_day t v = ground (arith, days_in_month-le t.year t.month)

module _ (today d : Date) (time : ℕ) (v : IsDate today) (w : IsDate d)
    (t : time < 86400000000) where
  daily_exact :
      ((midnight today ≤ midnight d + time) × (midnight d + time < midnight (next_day today)))
      ↔ SamePeriod daily d today
  daily_exact = (
    λ h. key_parts d today w v (
        between_days today d v w ((from_midnight (key today) (key d) time t).0 h.0)
          ((below_midnight (key d) (key (next_day today)) time t).0 h.1)),
    λ same.
        let eq : key d ≡ key today = omega arith in
        (
          (from_midnight (key today) (key d) time t).1 (omega arith),
          (below_midnight (key d) (key (next_day today)) time t).1
              (omega (arith, key-next_day today v)),
        ),
  )

  monthly_exact :
      (end' : Date)
      → compute_period_end monthly (record today { day = 1 }) ≡ ok end'
      → ((midnight (record today { day = 1 }) ≤ midnight d + time)
          × (midnight d + time < midnight end'))
        ↔ SamePeriod monthly d today
  unfolding compute_period_end
  monthly_exact end' e = (
    λ h.
        let lo = (from_midnight (key (record today { day = 1 })) (key d) time t).0 h.0 in
        let hi = (below_midnight (key d) (key end') time t).0 h.1 in
        same_month d today w v (ground (arith, days_in_month-le d.year d.month)),
    λ same. (
      (from_midnight (key (record today { day = 1 })) (key d) time t).1 (omega arith),
      (below_midnight (key d) (key end') time t).1
          (ground (arith, days_in_month-le d.year d.month)),
    ),
  )

-- For each kind of period that the helpers accept: a timestamp of a valid day lies from the start of
-- the period of `today` up to its end exactly when the day belongs to the same day or month.
pub period_exact :
    (p : Period) (today start end' d : Date) (time : ℕ)
    → IsDate today
    → IsDate d
    → time < 86400000000
    → compute_period_start p today ≡ ok start
    → compute_period_end p start ≡ ok end'
    → ((midnight start ≤ midnight d + time) × (midnight d + time < midnight end'))
      ↔ SamePeriod p d today
unfolding compute_period_start compute_period_end
period_exact daily today start end' d time v w t s e =
    rw (← ok_inj _ _ e, ← ok_inj _ _ s) (daily_exact today d time v w t)
period_exact monthly today start end' d time v w t s e = rw (← ok_inj _ _ s) (
    monthly_exact today d time v w t end'
      (subst (λ z. compute_period_end monthly z ≡ ok end') (sym (ok_inj _ _ s)) e))
period_exact unknown today start end' d time v w t s e = absurd (cc)
