-- ===== src/Clock.antt =====
-- Python's `datetime` in UTC as app/services/quota_service.py uses it, in whole seconds: the
-- proleptic Gregorian calendar, and `timestamp`.
use aiplatform.Shared.{
  ℕ, suc, zero, ◌+◌, ◌-◌, ◌*◌, ◌/◌, ◌%◌, ◌≤◌, ◌<◌, Bool, ◌&&◌, ◌||◌, not, ◌==◌, if◌then◌else◌,
}

pub record Datetime : Type 0 where
  pub year : ℕ
  pub month : ℕ
  pub day : ℕ
  pub second : ℕ  -- of the day

abbrev pub is_leap : ℕ → Bool
is_leap y = y % 4 == 0 && (not (y % 100 == 0) || y % 400 == 0)

abbrev pub leap_day : ℕ → ℕ
leap_day y = if is_leap y then 1 else 0

unfoldable pub days_in_month : ℕ → ℕ → ℕ
days_in_month y m =
    if m == 2 then 28 + leap_day y else if m == 4 || m == 6 || m == 9 || m == 11 then 30 else 31

-- The days of the year before a month's first day.
unfoldable pub days_before_month : ℕ → ℕ → ℕ
unfolding days_in_month
days_before_month y zero = 0
days_before_month y (suc zero) = 0
days_before_month y (suc (suc m)) = days_before_month y (suc m) + days_in_month y (suc m)

-- The days before the first of January of a year.
unfoldable pub days_before_year : ℕ → ℕ
days_before_year y = (y - 1) * 365 + (y - 1) / 4 - (y - 1) / 100 + (y - 1) / 400

-- Days since the first of January of year 1.
unfoldable pub ordinal : ℕ → ℕ → ℕ → ℕ
unfolding days_before_year days_before_month
ordinal y m d = days_before_year y + days_before_month y m + d - 1

abbrev pub day_seconds : ℕ
day_seconds = 86400

-- `dt.timestamp()`; 719162 is the ordinal of the first of January 1970.
unfoldable pub timestamp : Datetime → ℕ
unfolding ordinal
timestamp t = (ordinal t.year t.month t.day - 719162) * day_seconds + t.second

-- A `datetime` at or after 1970.
pub record IsDatetime (t : Datetime) : Type 0 where
  pub after_epoch : 1970 ≤ t.year
  pub month_lo : 1 ≤ t.month
  pub month_hi : t.month ≤ 12
  pub day_lo : 1 ≤ t.day
  pub day_hi : t.day ≤ days_in_month t.year t.month
  pub second_hi : t.second < day_seconds
