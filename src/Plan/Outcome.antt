-- ===== src/Plan/Outcome.antt =====
-- What becomes of a plan that fails, and which plans cannot succeed.
use aiplatform.Shared.{ℕ, List, Text}
use aiplatform.Exec.{Exec, pure, ◌>>=◌, ◌>>◌}
use aiplatform.Settings.{Settings}
use aiplatform.Models.{PlanStep, ExecutionPlanRunStatus}
use aiplatform.State.{World, Outside}
use aiplatform.Plan.Execution.{run_steps, complete_plan_run, PlanRunResult}

module _ (o : Outside) where
  from_steps : ℕ → Text → List PlanStep → Exec World PlanRunResult
  from_steps id message steps = run_steps o id steps message >>= λ y.
      (complete_plan_run o id y
        >> pure
            (record { plan_run_id = id; status = ExecutionPlanRunStatus.completed; result = y }))
