-- ===== src/Quota/Examples.antt =====
-- Concrete runs of the quota service, and the theorems applied to them.
use aiplatform.Shared.{◌<◌, ℕ, ◌+◌, ◌≡◌, refl, true, false, none, some, List, [], ◌∷◌, Text, arith}
use aiplatform.Exec.{ok}
use aiplatform.Models.{QuotaPolicy, QuotaScopeType, global_, group, user, requests, daily, monthly}
use aiplatform.Clock.{Datetime, IsDatetime, timestamp, days_in_month}
use aiplatform.State.{World}
use aiplatform.State.Examples.{empty_db, blank, counting-IsRedis, echo, all_on, noon}
use aiplatform.Quota.Policies.{select_effective_policies}
use aiplatform.Quota.Buckets.{period_bucket}
use aiplatform.Quota.Service.{assert_within_quota, record_usage}
use aiplatform.Quota.Enforcement.{Verdict, assert_within_quota-Verdict}
use aiplatform.Quota.Recording.{Counted}
use aiplatform.Quota.Accounting.{Stored, event_of, record_usage-Stored, record_usage-Counted}
use aiplatform.Quota.Expiry.{period_bucket_outlives}

abbrev alice : Text
alice = 97 ∷ []

abbrev staff : Text
staff = 115 ∷ []

abbrev policy : QuotaScopeType → Text → ℕ → ℕ → QuotaPolicy
policy scope value limit priority = record {
  scope_type = scope;
  scope_value = value;
  model_id = none;
  metric = requests;
  period = daily;
  window_seconds = none;
  limit_value = limit;
  priority = priority;
  enabled = true;
  deleted = false;
}

abbrev table : List QuotaPolicy
table =
    policy global_ [] 5 0
    ∷ policy group staff 10 1
    ∷ policy group staff 20 2
    ∷ policy user (98 ∷ []) 1 0
    ∷ []

-- The group's policy of priority 2 wins over the other one and over the global one.
select_example :
    select_effective_policies alice (staff ∷ []) none table ≡ policy group staff 20 2 ∷ []
unfolding select_effective_policies
select_example = refl

abbrev january : ℕ → Datetime
january s = record { year = 2024; month = 1; day = 31; second = s }

january-IsDatetime : (s : ℕ) → s < 86400 → IsDatetime (january s)
unfolding days_in_month
january-IsDatetime s h = record {
  after_epoch = omega arith;
  month_lo = omega arith;
  month_hi = omega arith;
  day_lo = omega arith;
  day_hi = omega arith;
  second_hi = h;
}

period_bucket_outlives_example :
    timestamp (january 100) < timestamp (january 7) + (period_bucket monthly none (january 7)).1
period_bucket_outlives_example =
    period_bucket_outlives monthly none (january 7) (january 100)
      (january-IsDatetime 7 (omega arith)) (january-IsDatetime 100 (omega arith))
      (unfold period_bucket in refl)

abbrev metered : World
metered = blank (record empty_db { quota_policies = table })

assert_within_quota-Verdict_example :
    Verdict echo metered noon
      (select_effective_policies alice (staff ∷ []) none table)
      (assert_within_quota echo all_on (some alice) (staff ∷ []) none metered).0
assert_within_quota-Verdict_example =
    assert_within_quota-Verdict echo all_on alice (staff ∷ []) none metered refl

record_usage-Stored_example :
    let r = record_usage echo all_on (some 1) (some alice) (staff ∷ []) none 10 20 none metered in
    (r.0 ≡ ok tt) × Stored none (event_of (some 1) alice (staff ∷ []) none 10 20 none) metered r.1
record_usage-Stored_example =
    record_usage-Stored echo all_on (some 1) alice (staff ∷ []) none 10 20 none metered refl

record_usage-Counted_example :
    let w' =
      (record_usage echo all_on (some 1) (some alice) (staff ∷ []) none 10 20 none metered).1 in
    Counted echo noon metered w' 10 20 none
      (select_effective_policies alice (staff ∷ []) none w'.db.quota_policies)
record_usage-Counted_example =
    record_usage-Counted echo all_on (some 1) alice (staff ∷ []) none 10 20 none metered refl
      counting-IsRedis
