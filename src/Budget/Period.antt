-- ===== src/Budget/Period.antt =====
-- The period helpers of src/pf_core/budget/check.py over civil dates. A date is compared through a
-- key that orders valid dates as the calendar does; a timestamp is a number whose day is such a key.
pub mod Bounds
use pf_core.Prelude.{
  ℕ, ◌+◌, ◌*◌, ◌%◌, ◌≤◌, ◌<◌, ◌≡◌, ◌⊎◌, Bool, true, false, ◌&&◌, ◌||◌, not, ltb, leb, ◌==◌, arith,
  if◌then◌else◌,
}
use pf_core.Result.{Result, ok, err, value_error, ◌>>=◌}

-- the `period` column; any other text is refused by the helpers
pub data Period : Type 0 where
  daily monthly unknown : Period

pub record Date : Type 0 where
  pub year : ℕ
  pub month : ℕ
  pub day : ℕ

unfoldable pub is_leap : ℕ → Bool
is_leap y = y % 4 == 0 && (not (y % 100 == 0) || y % 400 == 0)

unfoldable pub days_in_month : ℕ → ℕ → ℕ
unfolding is_leap
days_in_month y m =
    if m == 2
    then (if is_leap y then 29 else 28)
    else if m == 4 || (m == 6 || (m == 9 || m == 11))
    then 30
    else 31

pub record IsDate (d : Date) : Type 0 where
  pub month_pos : 1 ≤ d.month
  pub month_le : d.month ≤ 12
  pub day_pos : 1 ≤ d.day
  pub day_le : d.day ≤ days_in_month d.year d.month

abbrev pub key : Date → ℕ
key d = (d.year * 13 + d.month) * 32 + d.day

-- microseconds of a day; the timestamp of a date is its midnight
abbrev pub midnight : Date → ℕ
midnight d = key d * 86400000000

-- date + timedelta(days=1)
unfoldable pub next_day : Date → Date
next_day d =
    if ltb d.day (days_in_month d.year d.month)
    then (record d { day = d.day + 1 })
    else if ltb d.month 12
    then (record d { month = d.month + 1; day = 1 })
    else (record { year = d.year + 1; month = 1; day = 1 })

-- `today` is `now.date()`
unfoldable pub compute_period_start : Period → Date → Result Date
compute_period_start daily today = ok today
compute_period_start monthly today = ok (record today { day = 1 })
compute_period_start unknown today = err value_error

unfoldable pub compute_period_end : Period → Date → Result Date
unfolding next_day
compute_period_end daily start = ok (next_day start)
compute_period_end monthly start =
    if start.month == 12
    then ok (record start { year = start.year + 1; month = 1 })
    else ok (record start { month = start.month + 1 })
compute_period_end unknown start = err value_error
