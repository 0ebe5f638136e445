-- ===== src/Engine/Metrics.antt =====
-- The token usage of a run: `_metrics_to_dict` and `_extract_final_metrics` of
-- app/agno_runtime/engine.py, `_sum_metric_field` and `_extract_token_usage` of
-- app/services/chat_service.py.
use aiplatform.Shared.{ℕ, ◌+◌, Option, none, some, List, [], ◌∷◌, Text, codes}
use aiplatform.Engine.Actions.{get_key}

-- A metric: None, what `int` makes of a scalar, the elements of a list, or a value that neither
-- `int` nor `sum` can read.
pub data MetricValue : Type 0 where
  absent : MetricValue
  scalar : ℕ → MetricValue
  values : List (Option ℕ) → MetricValue
  unreadable : MetricValue

abbrev pub Metrics : Type 0
Metrics = List (Text × MetricValue)

-- The shapes of agno's metrics. A method is there or not; a call of it gives a dict, or it gives
-- something else or raises.
pub data AgnoMetrics : Type 0 where
  no_metrics : AgnoMetrics
  of_dict : Metrics → AgnoMetrics
  of_object : Option (Option Metrics) → Option (Option Metrics) → Option Metrics → AgnoMetrics

abbrev pub called : Option (Option Metrics) → Option Metrics
called none = none
called (some d) = d

-- `to_dict`, then `model_dump`, then `vars`
unfoldable pub metrics_to_dict : AgnoMetrics → Option Metrics
metrics_to_dict no_metrics = none
metrics_to_dict (of_dict d) = some d
metrics_to_dict (of_object to_dict model_dump vars) = elim (called to_dict) [
  | some d ↦ some d
  | none ↦ elim (called model_dump) [ some d ↦ some d | none ↦ vars ]
]

-- The argument is `agno_obj.run_response`, if it is there.
unfoldable pub extract_final_metrics : Option AgnoMetrics → Option Metrics
unfolding metrics_to_dict
extract_final_metrics none = none
extract_final_metrics (some m) = metrics_to_dict m

abbrev pub sum_values : List (Option ℕ) → ℕ
sum_values [] = 0
sum_values (none ∷ vs) = sum_values vs
sum_values (some n ∷ vs) = n + sum_values vs

-- `continue` goes on to the next key.
abbrev pub read_metric : Option MetricValue → ℕ → ℕ
read_metric none rest = rest
read_metric (some absent) rest = rest
read_metric (some (scalar n)) rest = n
read_metric (some (values vs)) rest = sum_values vs
read_metric (some unreadable) rest = rest

unfoldable pub sum_metric_field : Metrics → List Text → ℕ
sum_metric_field m [] = 0
sum_metric_field m (k ∷ ks) = read_metric (get_key k m) (sum_metric_field m ks)

unfoldable pub extract_token_usage : Option Metrics → ℕ × ℕ
unfolding sum_metric_field
extract_token_usage none = (0, 0)
extract_token_usage (some m) = (
  sum_metric_field m (codes "input_tokens" ∷ codes "prompt_tokens" ∷ []),
  sum_metric_field m (codes "output_tokens" ∷ codes "completion_tokens" ∷ []),
)
