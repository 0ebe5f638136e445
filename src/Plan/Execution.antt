-- ===== src/Plan/Execution.antt =====
-- app/execution/service.py: `ExecutionEngineService`, with the rows of app/models/execution_plan_run.py.
-- tenacity asks `stop_after_attempt` after every failed attempt; its wait of a second is left out.
use aiplatform.Shared.{
  ℕ, zero, suc, ◌+◌, max, not, Bool, true, false, none, some, List, [], ◌∷◌, ◌++◌, Text, ◌==◌, ltb,
  is_filled, update_where, sort_by, if◌then◌else◌,
}
use aiplatform.Errors.{Message, Failure, text, plan_step_failed, raised, ErrorClass}
use aiplatform.Exec.{
  Result, ok, err, Exec, pure, raise, raise_if, gets, modify, try_with, ◌>>=◌, ◌>>◌,
}
use aiplatform.Settings.{Settings}
use aiplatform.Models.{
  PlanStep, ExecutionPlan, ExecutionPlanRun, ExecutionPlanRunStatus, ExecutionPlanStepRun,
  ExecutionStepStatus, PlanStepTargetType,
}
use aiplatform.State.{World, Outside, change, now_seconds}
use aiplatform.Plan.Targets.{attempt, or_empty}

-- Assignments to the attributes of a row, and their flush.
abbrev pub update_plan_run : ℕ → (ExecutionPlanRun → ExecutionPlanRun) → World → World
update_plan_run id f =
    change
      λ d. record d { execution_plan_runs = update_where (λ r. r.id == id) f d.execution_plan_runs }

abbrev pub update_step_run : ℕ → (ExecutionPlanStepRun → ExecutionPlanStepRun) → World → World
update_step_run id f = change λ d. record d {
  execution_plan_step_runs = update_where (λ r. r.id == id) f d.execution_plan_step_runs;
}

abbrev pub attempts_of : PlanStep → ℕ
attempts_of s = max 1 (s.max_retries + 1)

abbrev pub count_attempt : ExecutionPlanStepRun → ExecutionPlanStepRun
count_attempt r = record r {
  attempt_count = suc r.attempt_count;
  status = if ltb 1 (suc r.attempt_count) then ExecutionStepStatus.retrying else r.status;
}

-- After an attempt: a failed one is made again, unless tenacity stops.
abbrev pub after_attempt : Bool → Exec World Text → Result Text × World → Result Text × World
after_attempt stops again (ok y, w) = (ok y, w)
after_attempt true again (err e, w) = (err e, w)
after_attempt false again (err e, w) = again w

module _ (o : Outside) (s : PlanStep) (x : Text) (row_id : ℕ) where
  -- The loop from the `k`-th attempt on, with so many rounds left. The last line of
  -- `_execute_step_with_retry` is where no round is left.
  unfoldable pub retry : ℕ → ℕ → Exec World Text
  unfolding attempt
  retry zero k w = (
    err (
        raised ErrorClass.runtime_execution_failed
          (text "Execution step retry loop exited without a result")),
    w,
  )
  retry (suc rounds) k w =
      after_attempt (o.retry_stops (attempts_of s) k) (retry rounds (suc k))
        (attempt o s x (update_step_run row_id count_attempt w))

  unfoldable pub execute_step_with_retry : Exec World Text
  unfolding retry
  execute_step_with_retry = retry (attempts_of s) 1

abbrev target_code : PlanStep → Text
target_code s = elim s.target_type [
  | PlanStepTargetType.team ↦ or_empty s.team_code
  | PlanStepTargetType.agent ↦ or_empty s.agent_code
]

abbrev pub new_step_run : ℕ → ℕ → PlanStep → Text → ℕ → ExecutionPlanStepRun
new_step_run id plan_run_id s x time = record {
  id = id;
  plan_run_id = plan_run_id;
  step_order = s.order;
  target_type = s.target_type;
  target_code = target_code s;
  status = ExecutionStepStatus.running;
  attempt_count = 0;
  input = x;
  output = none;
  error_message = none;
  started_at = some time;
  completed_at = none;
}

-- `step_run_repo.create`: the identifier of the new row.
unfoldable pub create_step_run : Outside → ℕ → PlanStep → Text → Exec World ℕ
create_step_run o plan_run_id s x = do
  time ← now_seconds o
  id ← gets (λ w. w.db.next_id)
  modify (
      change (λ d. record d {
        next_id = suc d.next_id;
        execution_plan_step_runs =
            d.execution_plan_step_runs ++ new_step_run id plan_run_id s x time ∷ [];
      }))
  pure id

unfoldable pub complete_step_run : Outside → ℕ → Text → Exec World (Unit {0})
complete_step_run o id y = do
  time ← now_seconds o
  modify (
      update_step_run id (λ r. record r {
        status = ExecutionStepStatus.completed;
        output = some y;
        completed_at = some time;
      }))

-- The handler of a step that failed for good: both rows.
unfoldable pub fail_rows : Outside → ℕ → ℕ → Message → Exec World (Unit {0})
fail_rows o plan_run_id id m = do
  time ← now_seconds o
  modify (
      update_step_run id (λ r. record r {
        status = ExecutionStepStatus.failed;
        error_message = some m;
        completed_at = some time;
      }))
  time ← now_seconds o
  modify (
      update_plan_run plan_run_id (λ r. record r {
        status = ExecutionPlanRunStatus.failed;
        error_message = some m;
        completed_at = some time;
      }))

-- `step.step_input_template or current_output`
unfoldable pub input_of : PlanStep → Text → Text
input_of s current_output = elim s.step_input_template [
  | none ↦ current_output
  | some t ↦ if is_filled t then t else current_output
]

abbrev pub plan_step_error : PlanStep → Message → Failure
plan_step_error s m = raised ErrorClass.runtime_execution_failed (plan_step_failed s.order m)

-- The loop over the sorted steps.
unfoldable pub run_steps : Outside → ℕ → List PlanStep → Text → Exec World Text
unfolding create_step_run complete_step_run fail_rows input_of execute_step_with_retry
run_steps o plan_run_id [] current_output = pure current_output
run_steps o plan_run_id (s ∷ ss) current_output = do
  id ← create_step_run o plan_run_id s (input_of s current_output)
  try_with (execute_step_with_retry o s (input_of s current_output) id)
      (λ y. do complete_step_run o id y; run_steps o plan_run_id ss y)
      (λ e. do fail_rows o plan_run_id id e.message; raise (plan_step_error s e.message))

abbrev pub new_plan_run : ℕ → ℕ → ExecutionPlan → ℕ → ExecutionPlanRun
new_plan_run id session_id plan time = record {
  id = id;
  session_id = session_id;
  input = plan.original_message;
  rationale = plan.rationale;
  status = ExecutionPlanRunStatus.running;
  result = none;
  error_message = none;
  started_at = some time;
  completed_at = none;
}

unfoldable pub create_plan_run : Outside → ExecutionPlan → ℕ → Exec World ℕ
create_plan_run o plan session_id = do
  time ← now_seconds o
  id ← gets (λ w. w.db.next_id)
  modify (
      change (λ d. record d {
        next_id = suc d.next_id;
        execution_plan_runs = d.execution_plan_runs ++ new_plan_run id session_id plan time ∷ [];
      }))
  pure id

unfoldable pub complete_plan_run : Outside → ℕ → Text → Exec World (Unit {0})
complete_plan_run o id result = do
  time ← now_seconds o
  modify (
      update_plan_run id (λ r. record r {
        status = ExecutionPlanRunStatus.completed;
        result = some result;
        completed_at = some time;
      }))

-- The dict that `run_plan` returns.
pub record PlanRunResult : Type 0 where
  pub plan_run_id : ℕ
  pub status : ExecutionPlanRunStatus
  pub result : Text

unfoldable pub run_plan : Outside → Settings → ExecutionPlan → ℕ → Exec World PlanRunResult
unfolding create_plan_run run_steps complete_plan_run sort_by
run_plan o settings plan session_id = do
  raise_if (not settings.feature_execution_engine) (
      raised ErrorClass.runtime_execution_failed
        (text "Execution Engine is not enabled on this deployment"))
  raise_if (not (is_filled plan.steps))
      (raised ErrorClass.runtime_execution_failed (text "ExecutionPlan has no steps to execute"))
  id ← create_plan_run o plan session_id
  y ← run_steps o id (sort_by (λ s. s.order) plan.steps) plan.original_message
  complete_plan_run o id y
  pure (record { plan_run_id = id; status = ExecutionPlanRunStatus.completed; result = y })
