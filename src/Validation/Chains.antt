-- ===== src/Validation/Chains.antt =====
-- What a chained comparison means, and when a record is valid.
use aiplatform.Shared.{ℕ, ◌≡◌, refl, ◌⊎◌, inl, inr, true, Option, Text}
use aiplatform.Validation.Values.{Value, Outcome, value, rule_error, type_error, apply_comparison}
use aiplatform.Validation.Rules.{Comparisons, Record, eval_node, then_eval}

Outcome-cases {ℓ} :
    {A : Type ℓ} (x : Outcome A) → ((a : A) × (x ≡ value a)) ⊎ ((x ≡ rule_error) ⊎ (x ≡ type_error))
Outcome-cases (value a) = inl (a, refl)
Outcome-cases rule_error = inr (inl refl)
Outcome-cases type_error = inr (inr refl)

-- What an evaluation that gives a value went through.
pub then_eval-value {ℓ κ} :
    {A : Type ℓ} {B : Type κ} (x : Outcome A) (f : A → Outcome B) (b : B)
    → then_eval x f ≡ value b
    → (a : A) × (x ≡ value a) × (f a ≡ value b)
then_eval-value (value a) f b h = (a, refl, h)
then_eval-value rule_error f b h = cc
then_eval-value type_error f b h = cc

module _ (parse_date : Text → Option ℕ) (r : Record) where
  -- Each value of the chain stands to the next one as its operator says.
  abbrev pub Chained : Value → Comparisons → Type 0
  Chained left Comparisons.no_more = Unit
  Chained left (Comparisons.then_compare op x rest) =
      (right : Value) × (eval_node parse_date r x ≡ value right)
      × (apply_comparison op left right ≡ value true)
      × Chained right rest
