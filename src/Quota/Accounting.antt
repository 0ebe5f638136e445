-- ===== src/Quota/Accounting.antt =====
-- `record_usage` as a whole: the audit row, the session that it leaves, and the counters.
use aiplatform.Shared.{
  ℕ, zero, suc, ◌∙◌, ◌≡◌, refl, sym, true, Option, none, some, List, [], ◌∷◌, ◌++◌, Text,
}
use aiplatform.Errors.{Message}
use aiplatform.Exec.{Result, ok}
use aiplatform.Settings.{Settings}
use aiplatform.Models.{QuotaPolicy, QuotaUsageEvent}
use aiplatform.Clock.{Datetime}
use mathlib.Core.Path.{subst}
use aiplatform.State.{Db, World, Outside, IsRedis}
use aiplatform.Quota.Policies.{select_effective_policies}
use aiplatform.Quota.Selection.{SlotsDiffer, effective-SlotsDiffer}
use aiplatform.Quota.Recording.{Counted, count_usage-Counted}
use aiplatform.Quota.Service.{
  is_tracked, used, delta_of, count_one, count_usage, count_effective, store_event, store_and_count,
  record_usage,
}

module _ (o : Outside) (t : Datetime) where
  count_one_db :
      (w : World) (p : QuotaPolicy) (d : ℕ)
      → ((count_one o t p d w).db ≡ w.db) × ((count_one o t p d w).saved ≡ w.saved)
  unfolding count_one
  count_one_db w p zero = (refl, refl)
  count_one_db w p (suc d) = (refl, refl)

  count_usage_db :
      (w : World) (ps : List QuotaPolicy) (i n : ℕ) (c : Option ℕ)
      → ((count_usage o t ps i n c w).db ≡ w.db) × ((count_usage o t ps i n c w).saved ≡ w.saved)
  unfolding count_usage
  count_usage_db w [] i n c = (refl, refl)
  count_usage_db w (p ∷ ps) i n c =
      let d = delta_of p.metric i n c in
      let rest = count_usage_db (count_one o t p d w) ps i n c in
      (rest.0 ∙ (count_one_db w p d).0, rest.1 ∙ (count_one_db w p d).1)

-- The audit row that a call writes.
abbrev pub event_of : Option ℕ → Text → List Text → Option ℕ → ℕ → ℕ → Option ℕ → QuotaUsageEvent
event_of run_id user_id groups model_id i n c = record {
  run_id = run_id;
  user_id = user_id;
  groups = groups;
  model_id = model_id;
  input_tokens = i;
  output_tokens = n;
  cost = c;
}

-- What the first `try` block leaves.
abbrev pub Stored : Option Message → QuotaUsageEvent → World → World → Type 0
Stored none e w w' =
    (w'.db ≡ record w.db { quota_usage_events = w.db.quota_usage_events ++ e ∷ [] })
    × (w'.saved ≡ w'.db)
Stored (some m) e w w' = (w'.db ≡ w.saved) × (w'.saved ≡ w'.db)

module _ (o : Outside) where
  count_effective_db :
      (w : World) (ps : List QuotaPolicy) (i n : ℕ) (c : Option ℕ)
      → let (r, w') = count_effective o ps i n c w in
        (r ≡ ok tt) × (w'.db ≡ w.db) × (w'.saved ≡ w.saved)
  unfolding count_effective
  count_effective_db w [] i n c = (refl, refl, refl)
  count_effective_db w (p ∷ ps) i n c =
      let w' = record w { readings = suc w.readings } in
      let kept = count_usage_db o (o.now w.readings) w' (p ∷ ps) i n c in (refl, kept.0, kept.1)

  store_event-Stored :
      (failure : Option Message) (e : QuotaUsageEvent) (w : World)
      → Stored failure e w (store_event o failure e w).1
  unfolding store_event
  store_event-Stored none e w = (refl, refl)
  store_event-Stored (some m) e w = (refl, refl)

  Stored-cong :
      (failure : Option Message) (e : QuotaUsageEvent) (w v u : World)
      → u.db ≡ v.db
      → u.saved ≡ v.saved
      → Stored failure e w v
      → Stored failure e w u
  Stored-cong none e w v u p q (h, k) = (p ∙ h, cc)
  Stored-cong (some m) e w v u p q (h, k) = (p ∙ h, cc)

  store_and_count-Stored :
      (failure : Option Message) (e : QuotaUsageEvent) (w : World)
      → ((store_and_count o failure e w).0 ≡ ok tt)
        × Stored failure e w (store_and_count o failure e w).1
  unfolding store_and_count
  store_and_count-Stored none e w =
      let v = (store_event o none e w).1 in
      let ps = select_effective_policies e.user_id e.groups e.model_id v.db.quota_policies in
      let (r, d, k) = count_effective_db v ps e.input_tokens e.output_tokens e.cost in
      (
        r,
        Stored-cong none e w v (count_effective o ps e.input_tokens e.output_tokens e.cost v).1 d k
            (refl, refl),
      )
  store_and_count-Stored (some m) e w =
      let v = (store_event o (some m) e w).1 in
      let ps = select_effective_policies e.user_id e.groups e.model_id v.db.quota_policies in
      let (r, d, k) = count_effective_db v ps e.input_tokens e.output_tokens e.cost in
      (
        r,
        Stored-cong (some m) e w v (count_effective o ps e.input_tokens e.output_tokens e.cost v).1
            d k (refl, refl),
      )

  count_effective-Counted :
      (v : World) (ps : List QuotaPolicy) (i n : ℕ) (c : Option ℕ)
      → IsRedis o.redis_get
      → SlotsDiffer ps
      → Counted o (o.now v.readings) v (count_effective o ps i n c v).1 i n c ps
  unfolding count_effective used
  count_effective-Counted v [] i n c redis h = tt
  count_effective-Counted v (p ∷ ps) i n c redis h =
      count_usage-Counted o redis (o.now v.readings) (record v { readings = suc v.readings })
        (p ∷ ps) i n c h

  -- What the second block counts, with the policies that the session then sees.
  store_and_count-Counted :
      (failure : Option Message) (e : QuotaUsageEvent) (w : World)
      → IsRedis o.redis_get
      → let w' = (store_and_count o failure e w).1 in
        Counted o
          (o.now w.readings)
          w
          w'
          e.input_tokens
          e.output_tokens
          e.cost
          (select_effective_policies e.user_id e.groups e.model_id w'.db.quota_policies)
  unfolding store_and_count used
  store_and_count-Counted none e w redis =
      let v = (store_event o none e w).1 in
      let choose = select_effective_policies e.user_id e.groups e.model_id in
      let ps = choose v.db.quota_policies in
      let v' = (count_effective o ps e.input_tokens e.output_tokens e.cost v).1 in
      subst
        (λ (d : Db).
          Counted o (o.now w.readings) w v' e.input_tokens e.output_tokens e.cost
            (choose d.quota_policies))
        (sym (count_effective_db v ps e.input_tokens e.output_tokens e.cost).1)
        (count_effective-Counted v ps e.input_tokens e.output_tokens e.cost redis
          (effective-SlotsDiffer e.user_id e.groups e.model_id v.db.quota_policies))
  store_and_count-Counted (some m) e w redis =
      let v = (store_event o (some m) e w).1 in
      let choose = select_effective_policies e.user_id e.groups e.model_id in
      let ps = choose v.db.quota_policies in
      let v' = (count_effective o ps e.input_tokens e.output_tokens e.cost v).1 in
      subst
        (λ (d : Db).
          Counted o (o.now w.readings) w v' e.input_tokens e.output_tokens e.cost
            (choose d.quota_policies))
        (sym (count_effective_db v ps e.input_tokens e.output_tokens e.cost).1)
        (count_effective-Counted v ps e.input_tokens e.output_tokens e.cost redis
          (effective-SlotsDiffer e.user_id e.groups e.model_id v.db.quota_policies))

  module _ (s : Settings) (run_id : Option ℕ) (user_id : Text) (groups : List Text)
      (model_id : Option ℕ) (i n : ℕ) (c : Option ℕ) (w : World)
      (tracked : is_tracked s (some user_id) ≡ true) where
    abbrev recorded : Result (Unit {0}) × World
    recorded = record_usage o s run_id (some user_id) groups model_id i n c w

    -- With the feature on and a user that has a name, `record_usage` never raises, and it leaves
    -- the session with nothing uncommitted. If the insert succeeds, the audit row is committed
    -- together with everything that the session held before; if it fails, the session is back
    -- at the last commit.
    pub record_usage-Stored :
        (recorded.0 ≡ ok tt)
        × Stored
            (o.usage_insert_error w.calls)
            (event_of run_id user_id groups model_id i n c)
            w
            recorded.1
    unfolding record_usage
    record_usage-Stored = rw tracked (
        store_and_count-Stored (o.usage_insert_error w.calls)
          (event_of run_id user_id groups model_id i n c) w)

    -- With the feature on, a user that has a name and Redis' documented behaviour, each policy that is effective in
    -- the database as the call leaves it has its counter for the current period advanced: by one
    -- request, by the tokens in and out, or by the cost, as its metric says, and exactly once.
    pub record_usage-Counted :
        IsRedis o.redis_get
        → Counted o
            (o.now w.readings)
            w
            recorded.1
            i
            n
            c
            (select_effective_policies user_id groups model_id recorded.1.db.quota_policies)
    unfolding record_usage
    record_usage-Counted redis = rw tracked (
        store_and_count-Counted (o.usage_insert_error w.calls)
          (event_of run_id user_id groups model_id i n c) w redis)
