-- ===== src/Plan/Examples.antt =====
-- A plan of two steps, a step that is tried again, and the theorems applied to them.
use aiplatform.Shared.{
  ◌≡◌, refl, inl, none, some, List, [], ◌∷◌, codes, Member, sort_by, ◌==◌, if◌then◌else◌,
}
use aiplatform.Errors.{Failure, text, raised, ErrorClass, plan_step_failed}
use aiplatform.Exec.{ok, err}
use aiplatform.Models.{PlanStep, PlanStepTargetType, ExecutionPlan, ExecutionPlanRunStatus}
use aiplatform.State.{Outside, answered, failed}
use aiplatform.State.Examples.{echo, all_on}
use aiplatform.Chat.Examples.{shop}
use aiplatform.Plan.Building.{build_plan, PlanStepRequest}
use aiplatform.Plan.Targets.{attempt}
use aiplatform.Plan.Execution.{run_plan}
use aiplatform.Plan.Unreachable.{build_plan_agent_fails}

-- The first call of a team fails, the later ones repeat their input.
abbrev flaky : Outside
flaky = record echo { run_team = λ n a t. if n == 0 then failed (text "busy") else answered t }

abbrev ask_sales : PlanStepRequest
ask_sales = record {
  team_code = some (codes "sales");
  agent_code = none;
  input_template = none;
  max_retries = 2;
}

abbrev ask_seller : PlanStepRequest
ask_seller = record ask_sales { team_code = none; agent_code = some (codes "seller") }

abbrev plan_of : List PlanStepRequest → ExecutionPlan
plan_of raws = build_plan all_on (codes "hi") (codes "enterprise") none none raws

abbrev sales_step : PlanStep
sales_step = record {
  target_type = PlanStepTargetType.team;
  agent_os_code = codes "enterprise";
  team_code = some (codes "sales");
  agent_code = none;
  step_input_template = none;
  max_retries = 2;
  order = 0;
}

-- One retry is enough.
second_try :
    (run_plan flaky all_on (plan_of (ask_sales ∷ [])) 30 shop).0
    ≡ ok (record {
      plan_run_id = 100;
      status = ExecutionPlanRunStatus.completed;
      result = codes "hi";
    })
unfolding run_plan build_plan sort_by
second_try = refl

abbrev agent_plan_error : Failure
agent_plan_error =
    raised ErrorClass.runtime_execution_failed
      (plan_step_failed 0 (text "Team not found or disabled"))

abbrev seller_step : PlanStep
seller_step = record sales_step {
  target_type = PlanStepTargetType.agent;
  team_code = none;
  agent_code = some (codes "seller");
}

seller_step_built : Member seller_step (plan_of (ask_seller ∷ [])).steps
unfolding build_plan
seller_step_built = inl refl

build_plan_agent_fails_example :
    (e : Failure) × (attempt echo seller_step (codes "hi") shop ≡ (err e, shop))
build_plan_agent_fails_example =
    build_plan_agent_fails echo all_on (codes "hi") (codes "enterprise") none none (ask_seller ∷ [])
      seller_step (codes "hi") shop (refl, tt) seller_step_built refl
