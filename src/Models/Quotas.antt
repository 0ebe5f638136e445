-- ===== src/Models/Quotas.antt =====
-- app/models/quota.py. An amount that is metered is a number of billionths of its unit (a
-- request, a token, a dollar), where the source has a float.
use aiplatform.Shared.{ℕ, Bool, Option, Text, List}

pub data QuotaScopeType : Type 0 where
  global_ group user : QuotaScopeType

pub data QuotaPeriod : Type 0 where
  daily monthly fixed_window : QuotaPeriod

pub data QuotaMetric : Type 0 where
  requests tokens cost_usd : QuotaMetric

pub record QuotaPolicy : Type 0 where
  pub scope_type : QuotaScopeType
  pub scope_value : Text
  pub model_id : Option ℕ
  pub metric : QuotaMetric
  pub period : QuotaPeriod
  pub window_seconds : Option ℕ
  pub limit_value : ℕ
  pub priority : ℕ
  pub enabled : Bool
  pub deleted : Bool

pub record QuotaUsageEvent : Type 0 where
  pub run_id : Option ℕ
  pub user_id : Text
  pub groups : List Text
  pub model_id : Option ℕ
  pub input_tokens : ℕ
  pub output_tokens : ℕ
  pub cost : Option ℕ
