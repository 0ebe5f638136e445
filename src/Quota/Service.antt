-- ===== src/Quota/Service.antt =====
-- `QuotaService`: `assert_within_quota` before a run, `record_usage` after it. A failure of Redis
-- itself is not modelled.
use aiplatform.Shared.{
  ℕ, zero, suc, ◌+◌, ◌*◌, Bool, false, ◌&&◌, Option, none, some, List, [], ◌∷◌, ◌++◌, Text, leb,
  is_filled, if◌then◌else◌,
}
use aiplatform.Errors.{Message, text, raised, ErrorClass}
use aiplatform.Exec.{ok, err, Exec, pure, modify, gets, ◌>>=◌, ◌>>◌}
use aiplatform.Settings.{Settings}
use aiplatform.Models.{QuotaPolicy, QuotaUsageEvent, QuotaMetric, requests, tokens, cost_usd}
use aiplatform.Clock.{Datetime}
use aiplatform.State.{
  World, Outside, incrbyfloat, expire, CounterKey, write, commit, rollback, now, counter_value,
}
use aiplatform.Quota.Policies.{select_effective_policies}
use aiplatform.Quota.Buckets.{period_bucket, policy_key}

-- A limit is a whole number of units: of dollars, counted in billionths, for a cost.
abbrev pub unit : ℕ
unit = 1000000000

-- `not user_id`: no user, or an empty name.
abbrev pub is_tracked : Settings → Option Text → Bool
is_tracked s none = false
is_tracked s (some user_id) = s.feature_quota_management && is_filled user_id

abbrev pub key_at : Datetime → QuotaPolicy → CounterKey
key_at t p = policy_key p (period_bucket p.period p.window_seconds t).0

abbrev pub ttl_at : Datetime → QuotaPolicy → ℕ
ttl_at t p = (period_bucket p.period p.window_seconds t).1

-- `metric_values`
unfoldable pub delta_of : QuotaMetric → ℕ → ℕ → Option ℕ → ℕ
delta_of requests i n c = 1 * unit
delta_of tokens i n c = (i + n) * unit
delta_of cost_usd i n none = 0
delta_of cost_usd i n (some cost) = cost

module _ (o : Outside) where
  unfoldable pub used : World → Datetime → QuotaPolicy → ℕ
  used w t p = counter_value (o.redis_get w.redis (key_at t p))

  abbrev pub is_exhausted : World → Datetime → QuotaPolicy → Bool
  is_exhausted w t p = leb (p.limit_value * unit) (used w t p)

  -- The loop over the policies: the first that is at its limit raises.
  unfoldable pub check_policies : Datetime → List QuotaPolicy → Exec World (Unit {0})
  unfolding used
  check_policies t [] w = (ok tt, w)
  check_policies t (p ∷ ps) w =
      let rest = check_policies t ps w in
      if is_exhausted w t p
      then (err (raised ErrorClass.quota_exceeded (text "Quota exceeded")), w)
      else rest

  unfoldable pub check_effective : List QuotaPolicy → Exec World (Unit {0})
  check_effective [] = pure tt
  check_effective (p ∷ ps) = do t ← now o; check_policies t (p ∷ ps)

  unfoldable pub assert_within_quota :
      Settings → Option Text → List Text → Option ℕ → Exec World (Unit {0})
  unfolding check_effective check_policies
  assert_within_quota s none groups model_id w = (ok tt, w)
  assert_within_quota s (some user_id) groups model_id w =
      if is_tracked s (some user_id)
      then check_effective (select_effective_policies user_id groups model_id w.db.quota_policies) w
      else (ok tt, w)

  -- Without an amount to count there is no command.
  unfoldable pub count_one : Datetime → QuotaPolicy → ℕ → World → World
  count_one t p zero w = w
  count_one t p (suc d) w = record w {
    redis = expire (key_at t p) (ttl_at t p) ∷ incrbyfloat (key_at t p) (suc d) ∷ w.redis;
  }

  unfoldable pub count_usage : Datetime → List QuotaPolicy → ℕ → ℕ → Option ℕ → World → World
  unfolding count_one
  count_usage t [] i n c w = w
  count_usage t (p ∷ ps) i n c w =
      count_usage t ps i n c (count_one t p (delta_of p.metric i n c) w)

  -- The second `try` block, which returns before it reads the clock if there is no policy.
  unfoldable pub count_effective : List QuotaPolicy → ℕ → ℕ → Option ℕ → Exec World (Unit {0})
  unfolding count_usage delta_of
  count_effective [] i n c = pure tt
  count_effective (p ∷ ps) i n c = do t ← now o; modify (count_usage t (p ∷ ps) i n c)

  -- The first `try` block: the audit row and its commit, or a rollback.
  unfoldable pub store_event : Option Message → QuotaUsageEvent → Exec World (Unit {0})
  store_event none e = do
    write (λ d. record d { quota_usage_events = d.quota_usage_events ++ e ∷ [] })
    commit
  store_event (some failure) e = rollback

  -- Both `try` blocks, given how the insert went.
  unfoldable pub store_and_count : Option Message → QuotaUsageEvent → Exec World (Unit {0})
  unfolding store_event count_effective
  store_and_count failure e = do
    store_event failure e
    policies ←
        gets (λ v. select_effective_policies e.user_id e.groups e.model_id v.db.quota_policies)
    count_effective policies e.input_tokens e.output_tokens e.cost

  unfoldable pub record_usage :
      Settings
      → Option ℕ
      → Option Text
      → List Text
      → Option ℕ
      → ℕ
      → ℕ
      → Option ℕ
      → Exec World (Unit {0})
  unfolding store_and_count
  record_usage s run_id none groups model_id i n c w = (ok tt, w)
  record_usage s run_id (some user_id) groups model_id i n c w =
      if is_tracked s (some user_id)
      then store_and_count (o.usage_insert_error w.calls)
          (record {
            run_id = run_id;
            user_id = user_id;
            groups = groups;
            model_id = model_id;
            input_tokens = i;
            output_tokens = n;
            cost = c;
          })
          w
      else (ok tt, w)
