-- ===== src/Quota/Enforcement.antt =====
-- When `assert_within_quota` lets a turn pass, and what it changes.
use aiplatform.Shared.{
  ℕ, suc, ◌≤◌, ◌<◌, ◌*◌, ◌≡◌, refl, true, Option, some, List, [], ◌∷◌, Text, ◌⊎◌, inl, inr, arith,
  All, Member, Bool-cases,
}
use aiplatform.Errors.{raised, text, ErrorClass}
use aiplatform.Exec.{Result, ok, err}
use aiplatform.Settings.{Settings}
use aiplatform.Models.{QuotaPolicy}
use aiplatform.Clock.{Datetime}
use aiplatform.State.{World, Outside}
use aiplatform.Quota.Policies.{select_effective_policies}
use aiplatform.Quota.Service.{
  unit, is_tracked, used, is_exhausted, check_policies, check_effective, assert_within_quota,
}

module _ (o : Outside) where
  -- How the check of a list ends: no policy is at its limit, or one is and the call raises.
  abbrev pub Verdict : World → Datetime → List QuotaPolicy → Result (Unit {0}) → Type 0
  Verdict w t ps r =
      ((r ≡ ok tt) × All (λ p. used o w t p < p.limit_value * unit) ps)
      ⊎ ((r ≡ err (raised ErrorClass.quota_exceeded (text "Quota exceeded")))
          × ((p : QuotaPolicy) × Member p ps × (p.limit_value * unit ≤ used o w t p)))

  check_policies-Verdict :
      (w : World) (t : Datetime) (ps : List QuotaPolicy)
      → Verdict w t ps (check_policies o t ps w).0
  unfolding check_policies
  check_policies-Verdict w t [] = inl (refl, tt)
  check_policies-Verdict w t (p ∷ ps) = elim (Bool-cases (is_exhausted o w t p)) [
    | inl full ↦ rw full (inr (refl, (p, inl refl, ground arith)))
    | inr room ↦ rw room (widen (check_policies-Verdict w t ps) (ground arith))
  ]
    where
      widen :
          {r : Result (Unit {0})}
          → Verdict w t ps r
          → used o w t p < p.limit_value * unit
          → Verdict w t (p ∷ ps) r
      widen (inl (e, h)) b = inl (e, (b, h))
      widen (inr (e, (q, m, h))) b = inr (e, (q, inr m, h))

  check_policies-world :
      (w : World) (t : Datetime) (ps : List QuotaPolicy) → (check_policies o t ps w).1 ≡ w
  unfolding check_policies
  check_policies-world w t [] = refl
  check_policies-world w t (p ∷ ps) = ground (arith, check_policies-world w t ps)

  module _ (s : Settings) (user_id : Text) (groups : List Text) (model_id : Option ℕ) (w : World)
      (tracked : is_tracked s (some user_id) ≡ true) where
    abbrev checked : List QuotaPolicy
    checked = select_effective_policies user_id groups model_id w.db.quota_policies

    abbrev outcome : Result (Unit {0}) × World
    outcome = assert_within_quota o s (some user_id) groups model_id w

    -- With the feature on and a user that has a name, the check passes exactly when every
    -- effective policy's counter for the current period is below its limit; otherwise it raises
    -- `QuotaExceededError`, and an effective policy has its counter at or above its limit.
    pub assert_within_quota-Verdict : Verdict w (o.now w.readings) checked outcome.0
    unfolding assert_within_quota
    assert_within_quota-Verdict = rw tracked (cases checked)
      where
        cases : (ps : List QuotaPolicy) → Verdict w (o.now w.readings) ps (check_effective o ps w).0
        cases [] = inl (refl, tt)
        cases (p ∷ ps) =
            check_policies-Verdict (record w { readings = suc w.readings }) (o.now w.readings)
              (p ∷ ps)
