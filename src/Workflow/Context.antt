-- ===== src/Workflow/Context.antt =====
-- app/agno_runtime/workflow_context.py
use aiplatform.Shared.{ℕ, zero, suc, Option, none, List, [], ◌∷◌, Text, ◌==◌, if◌then◌else◌}

-- `stepResults` is a dict; the latest write of a key stands first.
pub record WorkflowContext : Type 0 where
  pub agent_id : Option ℕ
  pub team_id : Option ℕ
  pub step_results : List (ℕ × Text)

-- `d.get(k, default)`
unfoldable pub get_or : List (ℕ × Text) → ℕ → Text → Text
get_or [] k default = default
get_or ((j, v) ∷ d) k default = if j == k then v else get_or d k default

unfoldable pub previous_output : WorkflowContext → ℕ → Text → Text
unfolding get_or
previous_output c zero original = original
previous_output c (suc n) original = get_or c.step_results n original

unfoldable pub record_result : ℕ → Text → WorkflowContext → WorkflowContext
record_result n output c = record c { step_results = (n, output) ∷ c.step_results }

abbrev pub empty_context : WorkflowContext
empty_context = record { agent_id = none; team_id = none; step_results = [] }
