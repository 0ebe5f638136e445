-- ===== src/Quota/Selection.antt =====
-- The policy that is enforced is the best of those that apply, one for each metric and period.
use aiplatform.Shared.{
  ℕ, ◌≡◌, ◌∙◌, Bool, true, false, Option, List, [], ◌∷◌, Text, ◌⊎◌, inl, inr, arith, select, All,
  Member, Bool-cases,
}
use aiplatform.Models.{QuotaPolicy}
use aiplatform.Quota.Policies.{
  same_slot, matches, list_matching, replaces, consider, consider_all, select_effective_policies,
}
use aiplatform.Quota.Preference.{IsPreferred, same_slot-cong, same_slot-sym_false}

-- What the dict holds for the slot of `p`.
abbrev Holds : QuotaPolicy → QuotaPolicy → List QuotaPolicy → Type 0
Holds p q best = Member q best × (same_slot p q ≡ true)

abbrev HasBetter : QuotaPolicy → List QuotaPolicy → Type 0
HasBetter p best = (q : QuotaPolicy) × Member q best × (same_slot p q ≡ true) × IsPreferred q p

-- Nothing is invented: what a round leaves was there before, or is the new policy.
consider_sound :
    (p q : QuotaPolicy) (best : List QuotaPolicy)
    → Member q (consider p best)
    → (q ≡ p) ⊎ Member q best
unfolding consider
consider_sound p q [] (inl e) = inl e
consider_sound p q [] (inr m) = absurd m
consider_sound p q (r ∷ best) m = ground (arith, consider_sound p q best)

consider_all_sound :
    (q : QuotaPolicy) (best ps : List QuotaPolicy)
    → Member q (consider_all best ps)
    → Member q best ⊎ Member q ps
unfolding consider_all
consider_all_sound q best [] m = inl m
consider_all_sound q best (p ∷ ps) m =
    ground (arith, consider_all_sound q (consider p best) ps, consider_sound p q best)

Member-select_head :
    (f : QuotaPolicy → Bool) (p q : QuotaPolicy) (ps : List QuotaPolicy)
    → f p ≡ true
    → (Member q (select f ps) → Member q ps × (f q ≡ true))
    → Member q (p ∷ select f ps)
    → Member q (p ∷ ps) × (f q ≡ true)
Member-select_head f p q ps h rest (inl e) = (inl e, rw e h)
Member-select_head f p q ps h rest (inr n) = (inr (rest n).0, (rest n).1)

pub select-Member :
    (f : QuotaPolicy → Bool) (q : QuotaPolicy) (ps : List QuotaPolicy)
    → Member q (select f ps)
    → Member q ps × (f q ≡ true)
select-Member f q [] m = absurd m
select-Member f q (p ∷ ps) m = elim (Bool-cases (f p)) [
  | inl here ↦ Member-select_head f p q ps here (select-Member f q ps) (rw here at m)
  | inr gone ↦ let (n, h) = select-Member f q ps (rw gone at m) in (inr n, h)
]

-- No two policies of the list have one slot.
abbrev pub SlotsDiffer : List QuotaPolicy → Type 0
SlotsDiffer [] = Unit
SlotsDiffer (q ∷ best) = All (λ r. same_slot q r ≡ false) best × SlotsDiffer best

All-differ_cong :
    (p q : QuotaPolicy) (best : List QuotaPolicy)
    → same_slot p q ≡ true
    → All (λ r. same_slot q r ≡ false) best
    → All (λ r. same_slot p r ≡ false) best
All-differ_cong p q [] s h = tt
All-differ_cong p q (r ∷ best) s (h, hs) =
    (same_slot-cong p q r s ∙ h, All-differ_cong p q best s hs)

All-differ_consider :
    (p q : QuotaPolicy) (best : List QuotaPolicy)
    → same_slot q p ≡ false
    → All (λ r. same_slot q r ≡ false) best
    → All (λ r. same_slot q r ≡ false) (consider p best)
unfolding consider
All-differ_consider p q [] s h = (s, tt)
All-differ_consider p q (r ∷ best) s (h, hs) = elim (Bool-cases (same_slot p r)) [
  | inl same ↦ elim (Bool-cases (replaces p r)) [
    | inl new ↦ rw (same, new) (s, hs)
    | inr old ↦ rw (same, old) (h, hs)
  ]
  | inr other ↦ rw other (h, All-differ_consider p q best s hs)
]

consider-SlotsDiffer :
    (p : QuotaPolicy) (best : List QuotaPolicy) → SlotsDiffer best → SlotsDiffer (consider p best)
unfolding consider
consider-SlotsDiffer p [] h = (tt, tt)
consider-SlotsDiffer p (q ∷ best) (h, hs) = elim (Bool-cases (same_slot p q)) [
  | inl same ↦ elim (Bool-cases (replaces p q)) [
    | inl new ↦ rw (same, new) (All-differ_cong p q best same h, hs)
    | inr old ↦ rw (same, old) (h, hs)
  ]
  | inr other ↦ rw other (
    All-differ_consider p q best (same_slot-sym_false p q other) h,
    consider-SlotsDiffer p best hs,
  )
]

consider_all-SlotsDiffer :
    (best ps : List QuotaPolicy) → SlotsDiffer best → SlotsDiffer (consider_all best ps)
unfolding consider_all
consider_all-SlotsDiffer best [] h = h
consider_all-SlotsDiffer best (p ∷ ps) h =
    consider_all-SlotsDiffer (consider p best) ps (consider-SlotsDiffer p best h)

module _ (user_id : Text) (groups : List Text) (model_id : Option ℕ)
    (table : List QuotaPolicy) where
  abbrev effective : List QuotaPolicy
  effective = select_effective_policies user_id groups model_id table

  -- Every policy that is enforced is a row of the table that applies to the caller and the model.
  pub effective_applies :
      (q : QuotaPolicy)
      → Member q effective
      → Member q table × (matches user_id groups model_id q ≡ true)
  unfolding select_effective_policies list_matching
  effective_applies q m = ground (
    arith,
    consider_all_sound q [] (list_matching user_id groups model_id table) m,
    select-Member (matches user_id groups model_id) q table,
  )

  -- At most one policy is enforced for a metric and a period.
  pub effective-SlotsDiffer : SlotsDiffer effective
  unfolding select_effective_policies
  effective-SlotsDiffer =
      consider_all-SlotsDiffer [] (list_matching user_id groups model_id table) tt
