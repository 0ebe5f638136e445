-- ===== src/Validation/Valid.antt =====
-- When a record is valid.
use aiplatform.Shared.{ℕ, ◌≡◌, ◌≢◌, ◌⊎◌, true, false, Option, none, some, [], ◌∷◌, Text}
use aiplatform.Validation.Values.{Value, value}
use aiplatform.Validation.Rules.{Node, Record, evaluate_rule, FieldDef, lookup}

module _ (parse : Text → Option Node) (parse_date : Text → Option ℕ) (r : Record) where
  -- A required field is there, and neither None nor the empty string.
  abbrev pub IsFilled : FieldDef → Type 0
  IsFilled f =
      (f.required ≡ false)
      ⊎ ((v : Value) × (lookup f.field_name r ≡ some v)
          × (v ≢ Value.absent)
          × (v ≢ Value.string []))

  -- A rule that is not empty evaluates to True.
  abbrev pub Holds : Option Text → Type 0
  Holds none = Unit
  Holds (some []) = Unit
  Holds (some (c ∷ cs)) = evaluate_rule parse parse_date (c ∷ cs) r ≡ value true
