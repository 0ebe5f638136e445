-- ===== src/Validation/Values.antt =====
-- app/businessobjects/validator.py: the values of a record, their coercion and their comparisons.
-- A record holds None, Booleans, integers and strings; floats, lists and objects are left out.
use aiplatform.Shared.{
  ℕ, Bool, true, false, not, Option, none, some, Text, ltb, ◌==◌, same_text, is_filled, text_leb,
}

-- Integers: `pos n` is n, and `negsuc n` is -(n + 1).
pub data ℤ : Type 0 where
  pos : ℕ → ℤ
  negsuc : ℕ → ℤ

pub data Value : Type 0 where
  absent : Value
  boolean : Bool → Value
  number : ℤ → Value
  string : Text → Value
  date : ℕ → Value

-- What evaluation gives: a value, a RuleEvaluationError, or Python's TypeError.
pub data Outcome {ℓ} (A : Type ℓ) : Type ℓ where
  value : A → Outcome A
  rule_error : Outcome A
  type_error : Outcome A

unfoldable pub int_ltb : ℤ → ℤ → Bool
int_ltb (ℤ.pos a) (ℤ.pos b) = ltb a b
int_ltb (ℤ.pos a) (ℤ.negsuc b) = false
int_ltb (ℤ.negsuc a) (ℤ.pos b) = true
int_ltb (ℤ.negsuc a) (ℤ.negsuc b) = ltb b a

unfoldable pub int_eq : ℤ → ℤ → Bool
int_eq (ℤ.pos a) (ℤ.pos b) = a == b
int_eq (ℤ.pos a) (ℤ.negsuc b) = false
int_eq (ℤ.negsuc a) (ℤ.pos b) = false
int_eq (ℤ.negsuc a) (ℤ.negsuc b) = a == b

-- A Boolean is an integer to Python.
unfoldable pub as_number : Value → Option ℤ
as_number (Value.boolean true) = some (ℤ.pos 1)
as_number (Value.boolean false) = some (ℤ.pos 0)
as_number (Value.number n) = some n
as_number _ = none

-- `left == right`, which never raises.
unfoldable pub equal_values : Value → Value → Bool
unfolding int_eq as_number
equal_values Value.absent Value.absent = true
equal_values (Value.string a) (Value.string b) = same_text a b
equal_values (Value.date a) (Value.date b) = a == b
equal_values a b = elim (as_number a) [
  | none ↦ false
  | some m ↦ elim (as_number b) [ none ↦ false | some n ↦ int_eq m n ]
]

-- `left < right`: only values of one kind have an order.
unfoldable pub less_values : Value → Value → Outcome Bool
unfolding int_ltb as_number
less_values (Value.string a) (Value.string b) = value (not (text_leb b a))
less_values (Value.date a) (Value.date b) = value (ltb a b)
less_values a b = elim (as_number a) [
  | none ↦ type_error
  | some m ↦ elim (as_number b) [ none ↦ type_error | some n ↦ value (int_ltb m n) ]
]

-- The operators of `_ALLOWED_COMPARISONS`, and those that are not in it.
pub data Comparison : Type 0 where
  gt gt_e lt lt_e eq not_eq : Comparison
  unsupported : Comparison

abbrev pub negated : Outcome Bool → Outcome Bool
negated (value b) = value (not b)
negated rule_error = rule_error
negated type_error = type_error

unfoldable pub apply_comparison : Comparison → Value → Value → Outcome Bool
unfolding less_values equal_values
apply_comparison Comparison.gt a b = less_values b a
apply_comparison Comparison.gt_e a b = negated (less_values a b)
apply_comparison Comparison.lt a b = less_values a b
apply_comparison Comparison.lt_e a b = negated (less_values b a)
apply_comparison Comparison.eq a b = value (equal_values a b)
apply_comparison Comparison.not_eq a b = value (not (equal_values a b))
apply_comparison Comparison.unsupported a b = rule_error

-- `bool(value)`; a date is true.
unfoldable pub truth : Value → Bool
truth Value.absent = false
truth (Value.boolean b) = b
truth (Value.number n) = not (int_eq n (ℤ.pos 0))
truth (Value.string t) = is_filled t
truth (Value.date d) = true

-- `_coerce`, with `datetime.fromisoformat(value).date()` as a parameter.
unfoldable pub coerce : (Text → Option ℕ) → Value → Value
coerce parse_date (Value.string t) = elim (parse_date t) [
  | none ↦ Value.string t
  | some d ↦ Value.date d
]
coerce parse_date v = v
