-- ===== src/Quota/Recording.antt =====
-- What `record_usage` does to the counters and to the audit rows.
use aiplatform.Shared.{
  ℕ, zero, suc, ◌+◌, ◌*◌, none, some, ◌≡◌, ◌≢◌, refl, ap, ◌∙◌, false, Option, List, [], ◌∷◌, arith,
  All,
}
use aiplatform.Models.{QuotaPolicy, QuotaMetric}
use aiplatform.Clock.{Datetime}
use aiplatform.State.{World, Outside, IsRedis, counter_value}
use aiplatform.Quota.Policies.{same_slot}
use aiplatform.Quota.Buckets.{policy_key}
use aiplatform.Quota.Preference.{same_slot_refl, same_slot-sym_false}
use aiplatform.Quota.Selection.{SlotsDiffer}
use aiplatform.Quota.Service.{unit, key_at, used, delta_of, count_one, count_usage}

-- Policies of different slots have different counters.
key_at-ne : (t : Datetime) (p q : QuotaPolicy) → same_slot p q ≡ false → key_at t p ≢ key_at t q
unfolding policy_key
key_at-ne t p q h e = cc (h, same_slot_refl q)

-- What a usage counts for: one request, its tokens in and out together, or its cost, if there is
-- one; requests and tokens are counted in whole units.
abbrev pub amount : QuotaMetric → ℕ → ℕ → Option ℕ → ℕ
amount QuotaMetric.requests tokens_in tokens_out cost = unit
amount QuotaMetric.tokens tokens_in tokens_out cost = tokens_in * unit + tokens_out * unit
amount QuotaMetric.cost_usd tokens_in tokens_out (some cost) = cost
amount QuotaMetric.cost_usd tokens_in tokens_out none = 0

delta_of-amount : (m : QuotaMetric) (i n : ℕ) (c : Option ℕ) → delta_of m i n c ≡ amount m i n c
unfolding delta_of
delta_of-amount QuotaMetric.requests i n c = omega arith
delta_of-amount QuotaMetric.tokens i n c = omega arith
delta_of-amount QuotaMetric.cost_usd i n (some cost) = refl
delta_of-amount QuotaMetric.cost_usd i n none = refl

-- Each policy's counter for the period of `t` has grown by what its metric says of the usage.
module _ (o : Outside) (t : Datetime) where
  abbrev pub Counted : World → World → ℕ → ℕ → Option ℕ → List QuotaPolicy → Type 0
  Counted w w' i n c = All (λ p. used o w' t p ≡ used o w t p + amount p.metric i n c)

module _ (o : Outside) (redis : IsRedis o.redis_get) (t : Datetime) where
  used_after_self :
      (w : World) (p : QuotaPolicy) (d : ℕ) → used o (count_one o t p d w) t p ≡ used o w t p + d
  unfolding used count_one
  used_after_self w p zero = omega arith
  used_after_self w p (suc d) =
      ap counter_value (redis.expire_keeps _ _ _ _ ∙ redis.incr_self w.redis (key_at t p) (suc d))

  used_after_other :
      (w : World) (p q : QuotaPolicy) (d : ℕ)
      → same_slot p q ≡ false
      → used o (count_one o t p d w) t q ≡ used o w t q
  unfolding used count_one
  used_after_other w p q zero h = refl
  used_after_other w p q (suc d) h = ap counter_value (
      redis.expire_keeps _ _ _ _
      ∙ redis.incr_other w.redis (key_at t p) (key_at t q) (suc d) (key_at-ne t p q h))

  count_usage_other :
      (w : World) (q : QuotaPolicy) (ps : List QuotaPolicy) (i n : ℕ) (c : Option ℕ)
      → All (λ p. same_slot q p ≡ false) ps
      → used o (count_usage o t ps i n c w) t q ≡ used o w t q
  unfolding count_usage
  count_usage_other w q [] i n c h = refl
  count_usage_other w q (p ∷ ps) i n c (h, hs) =
      count_usage_other (count_one o t p (delta_of p.metric i n c) w) q ps i n c hs
      ∙ used_after_other w p q (delta_of p.metric i n c) (same_slot-sym_false q p h)

  Counted-after :
      (w w' : World) (q : QuotaPolicy) (d : ℕ) (ps : List QuotaPolicy) (i n : ℕ) (c : Option ℕ)
      → All (λ p. same_slot q p ≡ false) ps
      → Counted o t (count_one o t q d w) w' i n c ps
      → Counted o t w w' i n c ps
  Counted-after w w' q d [] i n c h k = tt
  Counted-after w w' q d (p ∷ ps) i n c (h, hs) (k, ks) =
      (omega (arith, k, used_after_other w q p d h), Counted-after w w' q d ps i n c hs ks)

  -- Every policy of the list is counted once.
  pub count_usage-Counted :
      (w : World) (ps : List QuotaPolicy) (i n : ℕ) (c : Option ℕ)
      → SlotsDiffer ps
      → Counted o t w (count_usage o t ps i n c w) i n c ps
  unfolding count_usage
  count_usage-Counted w [] i n c h = tt
  count_usage-Counted w (p ∷ ps) i n c (h, hs) =
      let d = delta_of p.metric i n c in
      (
        count_usage_other (count_one o t p d w) p ps i n c h
            ∙ used_after_self w p d
            ∙ ap (λ (a : ℕ). used o w t p + a) (delta_of-amount p.metric i n c),
        Counted-after w (count_usage o t ps i n c (count_one o t p d w)) p d ps i n c h
            (count_usage-Counted (count_one o t p d w) ps i n c hs),
      )
