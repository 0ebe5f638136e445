-- ===== src/Quota/Buckets.antt =====
-- `_period_bucket` and `_policy_key`
use aiplatform.Shared.{ℕ, suc, zero, ◌+◌, ◌-◌, ◌/◌, max, Option, none, some, ◌==◌, if◌then◌else◌}
use aiplatform.Models.{QuotaPolicy, QuotaPeriod, daily, monthly, fixed_window}
use aiplatform.Clock.{Datetime, timestamp, day_seconds}
use aiplatform.State.{Bucket, of_day, of_month, of_window, CounterKey}

-- `window_seconds or 3600`
abbrev pub window_of : Option ℕ → ℕ
window_of none = 3600
window_of (some zero) = 3600
window_of (some (suc n)) = suc n

-- Midnight at the end of the day.
abbrev pub end_of_day : Datetime → ℕ
end_of_day t = timestamp (record t { second = 0 }) + day_seconds

-- The first of the next month; December goes to January.
abbrev pub next_month : Datetime → Datetime
next_month t =
    if t.month == 12
    then record { year = t.year + 1; month = 1; day = 1; second = 0 }
    else record { year = t.year; month = t.month + 1; day = 1; second = 0 }

-- The label and the time to live.
unfoldable pub period_bucket : QuotaPeriod → Option ℕ → Datetime → Bucket × ℕ
period_bucket daily w t = (of_day t.year t.month t.day, max (end_of_day t - timestamp t + 60) 60)
period_bucket monthly w t =
    (of_month t.year t.month, max (timestamp (next_month t) - timestamp t + 60) 60)
period_bucket fixed_window w t = (of_window (timestamp t / window_of w), window_of w + 60)

unfoldable pub policy_key : QuotaPolicy → Bucket → CounterKey
policy_key p b = record {
  scope_type = p.scope_type;
  scope_value = p.scope_value;
  model_id = p.model_id;
  metric = p.metric;
  period = p.period;
  bucket = b;
}
