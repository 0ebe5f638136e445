-- ===== src/Quota/Expiry.antt =====
-- A counter lives at least as long as the period that its key names.
use aiplatform.Shared.{
  ℕ, zero, suc, ◌+◌, ◌/◌, ◌≤◌, ◌<◌, ◌≡◌, sym, ap, Bool-cases, ==_iff, inl, inr, Option, none, some,
  arith, ◌==◌,
}
use native.Mathlib.Numerals.{add-one}
use mathlib.Core.Path.{ap₂}
use aiplatform.Models.{QuotaPeriod, daily, monthly, fixed_window}
use aiplatform.Clock.{
  Datetime, IsDatetime, timestamp, days_before_month, days_before_year, days_in_month, leap_day,
}
use aiplatform.State.{of_month, of_window}
use aiplatform.Quota.Buckets.{window_of, next_month, period_bucket}

window_of_pos : (w : Option ℕ) → 0 < window_of w
window_of_pos none = omega arith
window_of_pos (some zero) = omega arith
window_of_pos (some (suc n)) = omega arith

same_window : (a b w : ℕ) → 0 < w → a / w ≡ b / w → b < a + w
same_window a b w h e = grind arith

of_window-injective : (a b : ℕ) → of_window a ≡ of_window b → a ≡ b
of_window-injective a b e = cc

-- Two times with one fixed-window label are less than the time to live apart.
fixed_window_outlives :
    (w : Option ℕ) (t u : Datetime)
    → (period_bucket fixed_window w t).0 ≡ (period_bucket fixed_window w u).0
    → timestamp u < timestamp t + (period_bucket fixed_window w t).1
unfolding period_bucket
fixed_window_outlives w t u e = omega (
  arith,
  same_window (timestamp t) (timestamp u) (window_of w) (window_of_pos w)
      (of_window-injective _ _ e),
)

daily_outlives :
    (w : Option ℕ) (t u : Datetime)
    → IsDatetime u
    → (period_bucket daily w t).0 ≡ (period_bucket daily w u).0
    → timestamp u < timestamp t + (period_bucket daily w t).1
unfolding period_bucket timestamp
daily_outlives w t u valid e = ground arith

-- The calendar: a month is followed by the next, December by January.
days_before_next_month :
    (y m : ℕ) → 1 ≤ m → days_before_month y (m + 1) ≡ days_before_month y m + days_in_month y m
unfolding days_before_month
days_before_next_month y zero h = absurd (omega arith)
days_before_next_month y (suc m) h = rw add-one

days_before_december : (y : ℕ) → days_before_month y 12 ≡ 334 + leap_day y
unfolding days_before_month
days_before_december y = omega arith

days_before_next_year :
    (y : ℕ) → 1 ≤ y → days_before_year (y + 1) ≡ days_before_year y + 365 + leap_day y
unfolding days_before_year
days_before_next_year y h = ground arith

days_before_year_epoch : (y : ℕ) → 1970 ≤ y → 719162 ≤ days_before_year y
unfolding days_before_year
days_before_year_epoch y h = omega arith

days_in_month-le : (y m : ℕ) → days_in_month y m ≤ 31
unfolding days_in_month
days_in_month-le y m = ground arith

-- Every time of a month comes before the first of the next month.
month_end :
    (t u : Datetime)
    → IsDatetime t
    → IsDatetime u
    → t.year ≡ u.year
    → t.month ≡ u.month
    → timestamp u < timestamp (next_month t)
unfolding timestamp
month_end t u vt vu ey em = elim (Bool-cases (t.month == 12)) [
  | inl december ↦ rw december (
      omega (
        arith,
        (==_iff t.month 12).0 december,
        ap (days_before_month t.year) ((==_iff t.month 12).0 december),
        ap days_before_year ey,
        days_before_next_year t.year (omega (arith, vt.after_epoch)),
        days_before_december t.year,
        days_before_year_epoch u.year vu.after_epoch,
        ap₂ days_before_month (sym ey) (sym em),
        days_in_month-le u.year u.month,
      ))
  | inr earlier ↦ rw earlier (
      omega (
        arith,
        ap days_before_year ey,
        days_before_next_month t.year t.month vt.month_lo,
        days_before_year_epoch u.year vu.after_epoch,
        ap₂ days_before_month (sym ey) (sym em),
        ap₂ days_in_month (sym ey) (sym em),
      ))
]

month_parts : (y m y' m' : ℕ) → of_month y m ≡ of_month y' m' → (y ≡ y') × (m ≡ m')
month_parts y m y' m' e = (cc, cc)

-- A counter is never dropped within its own period: if the times `t` and `u` have one label, then
-- a key whose time to live is set at `t` has not expired at `u`. This holds for every kind of
-- period, from 1970 on.
pub period_bucket_outlives :
    (p : QuotaPeriod) (w : Option ℕ) (t u : Datetime)
    → IsDatetime t
    → IsDatetime u
    → (period_bucket p w t).0 ≡ (period_bucket p w u).0
    → timestamp u < timestamp t + (period_bucket p w t).1
period_bucket_outlives daily w t u vt vu e = daily_outlives w t u vu e
period_bucket_outlives fixed_window w t u vt vu e = fixed_window_outlives w t u e
period_bucket_outlives monthly w t u vt vu e =
    unfold period_bucket in
    let parts = month_parts t.year t.month u.year u.month (unfold period_bucket in e) in
    omega (arith, month_end t u vt vu parts.0 parts.1)
