-- ===== src/Quota/Preference.antt =====
-- When one policy is preferred to another, and when two are of one slot.
use aiplatform.Shared.{◌≤◌, ◌<◌, ◌≡◌, true, false, ◌⊎◌, inl, inr, arith, Bool-cases}
use aiplatform.Models.{QuotaPolicy, QuotaMetric, QuotaPeriod}
use aiplatform.Quota.Policies.{same_metric, same_period, same_slot, scope_rank, replaces}

-- `q` is at least as good as `p`: its scope is more specific; or as specific, and its priority
-- higher; or that equal too, and its limit no larger.
abbrev pub IsPreferred : QuotaPolicy → QuotaPolicy → Type 0
IsPreferred q p =
    (scope_rank q.scope_type < scope_rank p.scope_type)
    ⊎ ((scope_rank q.scope_type ≡ scope_rank p.scope_type)
        × ((p.priority < q.priority)
            ⊎ ((p.priority ≡ q.priority) × (q.limit_value ≤ p.limit_value))))

pub IsPreferred-of_not_replaces : (p q : QuotaPolicy) → replaces p q ≡ false → IsPreferred q p
unfolding replaces
IsPreferred-of_not_replaces p q h = ground arith

pub IsPreferred-of_replaces : (p q : QuotaPolicy) → replaces p q ≡ true → IsPreferred p q
unfolding replaces
IsPreferred-of_replaces p q h = ground arith

pub IsPreferred-refl : (p : QuotaPolicy) → IsPreferred p p
IsPreferred-refl p = ground arith

pub IsPreferred-trans : (a b c : QuotaPolicy) → IsPreferred a b → IsPreferred b c → IsPreferred a c
IsPreferred-trans a b c (inl h) (inl k) = inl (omega arith)
IsPreferred-trans a b c (inl h) (inr k) = inl (omega (arith, k.0))
IsPreferred-trans a b c (inr h) (inl k) = inl (omega (arith, h.0))
IsPreferred-trans a b c (inr h) (inr k) = ground arith

same_metric_refl : (m : QuotaMetric) → same_metric m m ≡ true
same_metric_refl m = ground arith

same_metric-eq : (m n : QuotaMetric) → same_metric m n ≡ true → m ≡ n
same_metric-eq m n h = ground arith

same_period_refl : (m : QuotaPeriod) → same_period m m ≡ true
same_period_refl m = ground arith

same_period-eq : (m n : QuotaPeriod) → same_period m n ≡ true → m ≡ n
same_period-eq m n h = ground arith

pub same_slot_refl : (p : QuotaPolicy) → same_slot p p ≡ true
same_slot_refl p = ground (arith, same_metric_refl p.metric, same_period_refl p.period)

pub same_slot-eq :
    (p q : QuotaPolicy) → same_slot p q ≡ true → (p.metric ≡ q.metric) × (p.period ≡ q.period)
same_slot-eq p q h =
    ground (arith, same_metric-eq p.metric q.metric, same_period-eq p.period q.period)

-- Policies of one slot are told from a third alike.
pub same_slot-cong : (p q r : QuotaPolicy) → same_slot p q ≡ true → same_slot p r ≡ same_slot q r
same_slot-cong p q r h = cc ((same_slot-eq p q h).0, (same_slot-eq p q h).1)

pub same_slot-sym_false : (p q : QuotaPolicy) → same_slot p q ≡ false → same_slot q p ≡ false
same_slot-sym_false p q h = elim (Bool-cases (same_slot q p)) [
  | inl same ↦ cc (h, same_slot-cong q p q same, same_slot_refl q)
  | inr differ ↦ differ
]
