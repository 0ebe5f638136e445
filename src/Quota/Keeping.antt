-- ===== src/Quota/Keeping.antt =====
-- What the quota service leaves alone.
use aiplatform.Shared.{
  ℕ, zero, suc, ◌∙◌, ◌≡◌, refl, sym, ap, inl, inr, Option, none, some, List, [], ◌∷◌, Text,
  Bool-cases,
}
use aiplatform.Errors.{Message}
use aiplatform.Settings.{Settings}
use aiplatform.Models.{QuotaPolicy, QuotaUsageEvent}
use aiplatform.Clock.{Datetime}
use aiplatform.State.{Db, World, Outside}
use aiplatform.Quota.Policies.{select_effective_policies}
use aiplatform.Quota.Accounting.{event_of}
use aiplatform.Quota.Service.{
  is_tracked, delta_of, is_exhausted, check_policies, check_effective, assert_within_quota,
  count_one, count_usage, count_effective, store_event, store_and_count, record_usage,
}

-- The database is as it was, and nothing was sent.
abbrev pub Untouched : World → World → Type 0
Untouched w v = (v.db ≡ w.db) × (v.saved ≡ w.saved) × (v.sent ≡ w.sent)

-- Nothing is uncommitted.
abbrev pub IsSynced : World → Type 0
IsSynced w = w.db ≡ w.saved

-- Nothing is uncommitted, the runs are as they were, and nothing was sent.
abbrev pub Accounted : World → World → Type 0
Accounted w v = IsSynced v × (v.db.agent_runs ≡ w.db.agent_runs) × (v.sent ≡ w.sent)

module _ (o : Outside) where
  check_policies_world :
      (t : Datetime) (ps : List QuotaPolicy) (w : World) → (check_policies o t ps w).1 ≡ w
  unfolding check_policies
  check_policies_world t [] w = refl
  check_policies_world t (p ∷ ps) w = elim (Bool-cases (is_exhausted o w t p)) [
    | inl e ↦ rw e refl
    | inr e ↦ rw e (check_policies_world t ps w)
  ]

  check_effective-Untouched :
      (ps : List QuotaPolicy) (w : World) → Untouched w (check_effective o ps w).1
  unfolding check_effective
  check_effective-Untouched [] w = (refl, refl, refl)
  check_effective-Untouched (p ∷ ps) w =
      let v = record w { readings = suc w.readings } in
      let e = check_policies_world (o.now w.readings) (p ∷ ps) v in
      (ap (λ (x : World). x.db) e, ap (λ (x : World). x.saved) e, ap (λ (x : World). x.sent) e)

  pub assert_within_quota-Untouched :
      (s : Settings) (user : Option Text) (groups : List Text) (model : Option ℕ) (w : World)
      → Untouched w (assert_within_quota o s user groups model w).1
  unfolding assert_within_quota
  assert_within_quota-Untouched s none groups model w = (refl, refl, refl)
  assert_within_quota-Untouched s (some user) groups model w =
      elim (Bool-cases (is_tracked s (some user))) [
        | inl e ↦ rw e (
            check_effective-Untouched
              (select_effective_policies user groups model w.db.quota_policies) w)
        | inr e ↦ rw e (refl, refl, refl)
      ]

  count_one-Untouched :
      (t : Datetime) (p : QuotaPolicy) (d : ℕ) (w : World) → Untouched w (count_one o t p d w)
  unfolding count_one
  count_one-Untouched t p zero w = (refl, refl, refl)
  count_one-Untouched t p (suc d) w = (refl, refl, refl)

  count_usage-Untouched :
      (t : Datetime) (ps : List QuotaPolicy) (i n : ℕ) (c : Option ℕ) (w : World)
      → Untouched w (count_usage o t ps i n c w)
  unfolding count_usage
  count_usage-Untouched t [] i n c w = (refl, refl, refl)
  count_usage-Untouched t (p ∷ ps) i n c w =
      let d = delta_of p.metric i n c in
      let (a, b, k) = count_one-Untouched t p d w in
      let (a', b', k') = count_usage-Untouched t ps i n c (count_one o t p d w) in
      (a' ∙ a, b' ∙ b, k' ∙ k)

  count_effective-Untouched :
      (ps : List QuotaPolicy) (i n : ℕ) (c : Option ℕ) (w : World)
      → Untouched w (count_effective o ps i n c w).1
  unfolding count_effective
  count_effective-Untouched [] i n c w = (refl, refl, refl)
  count_effective-Untouched (p ∷ ps) i n c w =
      count_usage-Untouched (o.now w.readings) (p ∷ ps) i n c
        (record w { readings = suc w.readings })

  store_event-Accounted :
      (failure : Option Message) (e : QuotaUsageEvent) (w : World)
      → IsSynced w
      → Accounted w (store_event o failure e w).1
  unfolding store_event
  store_event-Accounted none e w s = (refl, refl, refl)
  store_event-Accounted (some m) e w s = (refl, ap (λ (d : Db). d.agent_runs) (sym s), refl)

  count_effective-Accounted :
      (ps : List QuotaPolicy) (i n : ℕ) (c : Option ℕ) (w v : World)
      → Accounted w v
      → Accounted w (count_effective o ps i n c v).1
  count_effective-Accounted ps i n c w v (s, r, k) =
      let (a, b, m) = count_effective-Untouched ps i n c v in
      (a ∙ s ∙ sym b, ap (λ (d : Db). d.agent_runs) a ∙ r, m ∙ k)

  store_and_count-Accounted :
      (failure : Option Message) (e : QuotaUsageEvent) (w : World)
      → IsSynced w
      → Accounted w (store_and_count o failure e w).1
  unfolding store_and_count
  store_and_count-Accounted none e w s =
      let v = (store_event o none e w).1 in
      let ps = select_effective_policies e.user_id e.groups e.model_id v.db.quota_policies in
      count_effective-Accounted ps e.input_tokens e.output_tokens e.cost w v
        (store_event-Accounted none e w s)
  store_and_count-Accounted (some m) e w s =
      let v = (store_event o (some m) e w).1 in
      let ps = select_effective_policies e.user_id e.groups e.model_id v.db.quota_policies in
      count_effective-Accounted ps e.input_tokens e.output_tokens e.cost w v
        (store_event-Accounted (some m) e w s)

  -- A turn that was committed before stays committed, however the record of its usage goes.
  pub record_usage-Accounted :
      (s : Settings) (run_id : Option ℕ) (user : Option Text) (groups : List Text)
      (model : Option ℕ) (i n : ℕ) (c : Option ℕ) (w : World)
      → IsSynced w
      → Accounted w (record_usage o s run_id user groups model i n c w).1
  unfolding record_usage
  record_usage-Accounted s run_id none groups model i n c w e = (e, refl, refl)
  record_usage-Accounted s run_id (some user) groups model i n c w e =
      elim (Bool-cases (is_tracked s (some user))) [
        | inl h ↦ rw h (store_and_count-Accounted (o.usage_insert_error w.calls) _ w e)
        | inr h ↦ rw h (e, refl, refl)
      ]

  store_and_count_keeps_runs :
      (e : QuotaUsageEvent) (w : World)
      → (store_and_count o none e w).1.db.agent_runs ≡ w.db.agent_runs
  unfolding store_and_count store_event
  store_and_count_keeps_runs e w =
      let v = (store_event o none e w).1 in
      let ps = select_effective_policies e.user_id e.groups e.model_id v.db.quota_policies in
      ap (λ (d : Db). d.agent_runs)
        (count_effective-Untouched ps e.input_tokens e.output_tokens e.cost v).0

  -- Unless the insert fails, the runs are as they were, committed or not.
  pub record_usage_keeps_runs :
      (s : Settings) (run_id : Option ℕ) (user : Option Text) (groups : List Text)
      (model : Option ℕ) (i n : ℕ) (c : Option ℕ) (w : World)
      → o.usage_insert_error w.calls ≡ none
      → (record_usage o s run_id user groups model i n c w).1.db.agent_runs ≡ w.db.agent_runs
  unfolding record_usage
  record_usage_keeps_runs s run_id none groups model i n c w e = refl
  record_usage_keeps_runs s run_id (some user) groups model i n c w e =
      elim (Bool-cases (is_tracked s (some user))) [
        | inl h ↦
            rw h (rw e (store_and_count_keeps_runs (event_of run_id user groups model i n c) w))
        | inr h ↦ rw h refl
      ]
