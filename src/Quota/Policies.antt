-- ===== src/Quota/Policies.antt =====
-- Which policies apply to a caller, and which of them is enforced.
use aiplatform.Shared.{
  ℕ, Bool, true, false, ◌&&◌, ◌||◌, not, Option, none, some, List, [], ◌∷◌, Text, ◌==◌, ltb,
  same_id, same_text, select, if◌then◌else◌,
}
use aiplatform.Models.{
  QuotaPolicy, QuotaScopeType, global_, group, user, QuotaMetric, requests, tokens, cost_usd,
  QuotaPeriod, daily, monthly, fixed_window,
}

abbrev pub same_metric : QuotaMetric → QuotaMetric → Bool
same_metric requests requests = true
same_metric tokens tokens = true
same_metric cost_usd cost_usd = true
same_metric _ _ = false

abbrev pub same_period : QuotaPeriod → QuotaPeriod → Bool
same_period daily daily = true
same_period monthly monthly = true
same_period fixed_window fixed_window = true
same_period _ _ = false

-- `scope_value in groups`
abbrev pub in_groups : Text → List Text → Bool
in_groups v [] = false
in_groups v (g ∷ gs) = same_text v g || in_groups v gs

abbrev pub scope_matches : Text → List Text → QuotaPolicy → QuotaScopeType → Bool
scope_matches user_id groups p user = same_text p.scope_value user_id
scope_matches user_id groups p group = in_groups p.scope_value groups
scope_matches user_id groups p global_ = true

-- A policy for all models, or for the model at hand.
abbrev pub model_matches : Option ℕ → Option ℕ → Bool
model_matches none policy_model = same_id policy_model none
model_matches (some m) policy_model = same_id policy_model none || same_id policy_model (some m)

abbrev pub matches : Text → List Text → Option ℕ → QuotaPolicy → Bool
matches user_id groups model_id p =
    not p.deleted
    && (p.enabled
        && (scope_matches user_id groups p p.scope_type && model_matches model_id p.model_id))

-- `QuotaPolicyRepository.list_matching`
unfoldable pub list_matching : Text → List Text → Option ℕ → List QuotaPolicy → List QuotaPolicy
list_matching user_id groups model_id = select (matches user_id groups model_id)

abbrev pub scope_rank : QuotaScopeType → ℕ
scope_rank user = 0
scope_rank group = 1
scope_rank global_ = 2

-- The dict's key, (metric, period).
abbrev pub same_slot : QuotaPolicy → QuotaPolicy → Bool
same_slot p q = same_metric p.metric q.metric && same_period p.period q.period

-- Does a new candidate take the place of the current best?
unfoldable pub replaces : QuotaPolicy → QuotaPolicy → Bool
replaces new current =
    if ltb (scope_rank new.scope_type) (scope_rank current.scope_type)
    then true
    else if scope_rank new.scope_type == scope_rank current.scope_type
    then (if ltb current.priority new.priority
        then true
        else (new.priority == current.priority && ltb new.limit_value current.limit_value))
    else false

-- One round of the loop: `best` as the list of the dict's values, whose keys are their slots.
unfoldable pub consider : QuotaPolicy → List QuotaPolicy → List QuotaPolicy
consider p [] = p ∷ []
consider p (q ∷ best) =
    let rest = consider p best in
    if same_slot p q then (if replaces p q then p ∷ best else q ∷ best) else q ∷ rest

unfoldable pub consider_all : List QuotaPolicy → List QuotaPolicy → List QuotaPolicy
unfolding consider replaces
consider_all best [] = best
consider_all best (p ∷ ps) = consider_all (consider p best) ps

-- `QuotaService._select_effective_policies`
unfoldable pub select_effective_policies :
    Text → List Text → Option ℕ → List QuotaPolicy → List QuotaPolicy
unfolding consider_all list_matching
select_effective_policies user_id groups model_id table =
    consider_all [] (list_matching user_id groups model_id table)
