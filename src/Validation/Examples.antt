-- ===== src/Validation/Examples.antt =====
-- A rule on numbers and a chain, and the theorems applied to them.
use aiplatform.Shared.{ℕ, ◌≡◌, refl, true, Option, none, some, List, [], ◌∷◌, Text, codes}
use aiplatform.Validation.Values.{
  Value, value, type_error, Comparison, apply_comparison, ℤ, coerce, truth,
}
use aiplatform.Validation.Rules.{
  Node, Comparisons, Record, eval_node, FieldDef, RuleDef, with_message, validate_record,
}

abbrev no_dates : Text → Option ℕ
no_dates t = none

abbrev number_of : ℕ → Value
number_of n = Value.number (ℤ.pos n)

abbrev days : ℕ → Record
days n = (codes "days", number_of n) ∷ []

-- `0 < days <= 9`, the part after the first value.
abbrev up_to_nine : Comparisons
up_to_nine =
    Comparisons.then_compare Comparison.lt (Node.name (codes "days"))
      (Comparisons.then_compare Comparison.lt_e (Node.constant (number_of 9)) Comparisons.no_more)

-- The only rule that this parser knows.
abbrev parse_days : Text → Option Node
parse_days t = some (Node.compare (Node.constant (number_of 0)) up_to_nine)

abbrev fields : List FieldDef
fields = (record { field_name = codes "days"; required = true }) ∷ []

abbrev rules : List RuleDef
rules = (record { rule = some (codes "0 < days <= 9"); message = some (codes "Too long.") }) ∷ []

three_days : validate_record parse_days no_dates fields rules (days 3) ≡ value []
unfolding validate_record eval_node apply_comparison coerce truth
three_days = refl

ten_days :
    validate_record parse_days no_dates fields rules (days 10)
    ≡ value (with_message (codes "Too long.") ∷ [])
unfolding validate_record eval_node apply_comparison coerce truth
ten_days = refl

-- A string in a comparison with numbers is a TypeError, which nobody catches.
worded_days :
    validate_record parse_days no_dates fields rules
      ((codes "days", Value.string (codes "three")) ∷ [])
    ≡ type_error
unfolding validate_record eval_node apply_comparison coerce truth
worded_days = refl
