-- ===== src/Plan/Building.antt =====
-- app/planning/service.py: `PlanningEngineService.build_plan`.
use aiplatform.Shared.{
  ℕ, suc, not, ◌||◌, Option, none, some, List, [], ◌∷◌, Text, codes, is_filled, if◌then◌else◌,
}
use aiplatform.Models.{PlanStep, PlanStepTargetType, ExecutionPlan}
use aiplatform.Settings.{Settings}

-- app/schemas/execution_plan.py
pub record PlanStepRequest : Type 0 where
  pub team_code : Option Text
  pub agent_code : Option Text
  pub input_template : Option Text
  pub max_retries : ℕ

-- `team if code else agent`: an empty code counts as none.
unfoldable pub target_of : Option Text → PlanStepTargetType
target_of none = PlanStepTargetType.agent
target_of (some []) = PlanStepTargetType.agent
target_of (some (c ∷ cs)) = PlanStepTargetType.team

-- The single step of a plan that is not explicit.
abbrev pub default_step : Text → Option Text → Option Text → PlanStep
default_step agent_os_code team_code agent_code = record {
  target_type = target_of team_code;
  agent_os_code = agent_os_code;
  team_code = team_code;
  agent_code = agent_code;
  step_input_template = none;
  max_retries = 0;
  order = 0;
}

abbrev pub explicit_step : Text → ℕ → PlanStepRequest → PlanStep
explicit_step agent_os_code i raw = record {
  target_type = target_of raw.team_code;
  agent_os_code = agent_os_code;
  team_code = raw.team_code;
  agent_code = raw.agent_code;
  step_input_template = raw.input_template;
  max_retries = raw.max_retries;
  order = i;
}

-- The loop over `enumerate(explicit_steps)`.
unfoldable pub number_from : Text → ℕ → List PlanStepRequest → List PlanStep
number_from os i [] = []
number_from os i (raw ∷ raws) = explicit_step os i raw ∷ number_from os (suc i) raws

unfoldable pub build_plan :
    Settings → Text → Text → Option Text → Option Text → List PlanStepRequest → ExecutionPlan
unfolding number_from target_of
build_plan settings message agent_os_code team_code agent_code explicit_steps =
    if not settings.feature_planning_engine || not (is_filled explicit_steps)
    then record {
      original_message = message;
      steps = default_step agent_os_code team_code agent_code ∷ [];
      rationale = codes "single-step (default dispatch)";
    }
    else record {
      original_message = message;
      steps = number_from agent_os_code 0 explicit_steps;
      rationale = codes "explicit multi-step plan";
    }
