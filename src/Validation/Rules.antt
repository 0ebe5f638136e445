-- ===== src/Validation/Rules.antt =====
-- app/businessobjects/validator.py: `_eval_node`, `evaluate_rule` and `validate_record`.
use aiplatform.Shared.{
  ℕ, Bool, true, false, ◌&&◌, ◌||◌, not, Option, none, some, List, [], ◌∷◌, ◌++◌, Text, same_text,
  is_filled, if◌then◌else◌,
}
use aiplatform.Validation.Values.{
  Value, Outcome, value, rule_error, type_error, Comparison, apply_comparison, truth, coerce,
}

pub data BoolOp : Type 0 where
  and_op or_op : BoolOp

-- The nodes of `ast` that the evaluator knows, and `unknown` for the others. `ast.Expression` is
-- its body.
mutual
  pub data Node : Type 0 where
    constant : Value → Node
    name : Text → Node
    compare : Node → Comparisons → Node
    bool_op : BoolOp → Operands → Node
    not_op : Node → Node
    unknown : Node

  -- `zip(node.ops, node.comparators)`
  pub data Comparisons : Type 0 where
    no_more : Comparisons
    then_compare : Comparison → Node → Comparisons → Comparisons

  pub data Operands : Type 0 where
    no_operands : Operands
    operand : Node → Operands → Operands

abbrev pub Record : Type 0
Record = List (Text × Value)

unfoldable pub lookup : Text → Record → Option Value
lookup k [] = none
lookup k ((j, v) ∷ r) = if same_text j k then some v else lookup k r

abbrev pub then_eval {ℓ κ} : {A : Type ℓ} {B : Type κ} → Outcome A → (A → Outcome B) → Outcome B
then_eval (value a) f = f a
then_eval rule_error f = rule_error
then_eval type_error f = type_error

-- `op_type not in _ALLOWED_COMPARISONS`
abbrev pub allow : Comparison → Outcome (Unit {0})
allow Comparison.unsupported = rule_error
allow _ = value tt

-- `result and op(left, right)`: after a false one nothing is compared.
abbrev pub and_compare : Bool → Comparison → Value → Value → Outcome Bool
and_compare true op left right = apply_comparison op left right
and_compare false op left right = value false

-- `all(values)` or `any(values)`
unfoldable pub combine : BoolOp → List Value → Bool
combine BoolOp.and_op [] = true
combine BoolOp.and_op (v ∷ vs) = truth v && combine BoolOp.and_op vs
combine BoolOp.or_op [] = false
combine BoolOp.or_op (v ∷ vs) = truth v || combine BoolOp.or_op vs

module _ (parse_date : Text → Option ℕ) (r : Record) where
  unfoldable mutual
    pub eval_node : Node → Outcome Value
    eval_node (Node.constant v) = value v
    eval_node (Node.name k) = elim (lookup k r) [
      | none ↦ rule_error
      | some v ↦ value (coerce parse_date v)
    ]
    eval_node (Node.compare left rest) =
        then_eval (eval_node left)
          λ l. then_eval (eval_comparisons true l rest) λ b. value (Value.boolean b)
    eval_node (Node.bool_op op xs) =
        then_eval (eval_operands xs) λ vs. value (Value.boolean (combine op vs))
    eval_node (Node.not_op x) = then_eval (eval_node x) λ v. value (Value.boolean (not (truth v)))
    eval_node Node.unknown = rule_error

    -- The loop of a chained comparison.
    pub eval_comparisons : Bool → Value → Comparisons → Outcome Bool
    eval_comparisons result left Comparisons.no_more = value result
    eval_comparisons result left (Comparisons.then_compare op x rest) = then_eval (allow op) λ _.
        then_eval (eval_node x)
          λ right. then_eval (and_compare result op left right) λ b. eval_comparisons b right rest

    pub eval_operands : Operands → Outcome (List Value)
    eval_operands Operands.no_operands = value []
    eval_operands (Operands.operand x xs) =
        then_eval (eval_node x) λ v. then_eval (eval_operands xs) λ vs. value (v ∷ vs)

-- `evaluate_rule`, with `ast.parse(rule, mode="eval")` as a parameter.
unfoldable pub evaluate_rule :
    (Text → Option Node) → (Text → Option ℕ) → Text → Record → Outcome Bool
unfolding eval_node
evaluate_rule parse parse_date rule r = elim (parse rule) [
  | none ↦ rule_error
  | some tree ↦ then_eval (eval_node parse_date r tree) λ v. value (truth v)
]

-- The entries of `payload["fields"]` and `payload["validation"]`.
pub record FieldDef : Type 0 where
  pub field_name : Text
  pub required : Bool

pub record RuleDef : Type 0 where
  pub rule : Option Text
  pub message : Option Text

-- The messages of `validate_record`.
pub data Violation : Type 0 where
  missing_field : Text → Violation
  with_message : Text → Violation
  validation_failed : Text → Violation
  not_evaluated : Text → Violation

-- `record.get(name) in (None, "")`
unfoldable pub is_blank : Option Value → Bool
is_blank none = true
is_blank (some Value.absent) = true
is_blank (some (Value.string t)) = not (is_filled t)
is_blank (some v) = false

unfoldable pub check_fields : List FieldDef → Record → List Violation
unfolding lookup is_blank
check_fields [] r = []
check_fields (f ∷ fs) r =
    let rest = check_fields fs r in
    if f.required && is_blank (lookup f.field_name r)
    then missing_field f.field_name ∷ rest
    else rest

abbrev pub message_of : Option Text → Text → Violation
message_of none rule = validation_failed rule
message_of (some m) rule = with_message m

-- The `try` block of one rule and its handler.
abbrev pub verdict : Option Text → Text → Outcome Bool → Outcome (List Violation)
verdict message rule (value true) = value []
verdict message rule (value false) = value (message_of message rule ∷ [])
verdict message rule rule_error = value (not_evaluated rule ∷ [])
verdict message rule type_error = type_error

module _ (parse : Text → Option Node) (parse_date : Text → Option ℕ) where
  unfoldable pub check_rule : Option Text → Option Text → Record → Outcome (List Violation)
  unfolding evaluate_rule
  check_rule none message r = value []
  check_rule (some []) message r = value []
  check_rule (some (c ∷ cs)) message r =
      verdict message (c ∷ cs) (evaluate_rule parse parse_date (c ∷ cs) r)

  unfoldable pub check_rules : List RuleDef → Record → Outcome (List Violation)
  unfolding check_rule
  check_rules [] r = value []
  check_rules (d ∷ ds) r =
      then_eval (check_rule d.rule d.message r)
        λ vs. then_eval (check_rules ds r) λ ws. value (vs ++ ws)

  unfoldable pub validate_record : List FieldDef → List RuleDef → Record → Outcome (List Violation)
  unfolding check_fields check_rules
  validate_record fields rules r =
      then_eval (check_rules rules r) λ vs. value (check_fields fields r ++ vs)
