-- ===== src/Models/Plans.antt =====
-- app/planning/models.py and app/models/execution_plan_run.py
use aiplatform.Shared.{ℕ, Option, List, Text}
use aiplatform.Errors.{Message}

pub data PlanStepTargetType : Type 0 where
  agent team : PlanStepTargetType

pub record PlanStep : Type 0 where
  pub target_type : PlanStepTargetType
  pub agent_os_code : Text
  pub team_code : Option Text
  pub agent_code : Option Text
  pub step_input_template : Option Text
  pub max_retries : ℕ
  pub order : ℕ

pub record ExecutionPlan : Type 0 where
  pub original_message : Text
  pub steps : List PlanStep
  pub rationale : Text

pub data ExecutionPlanRunStatus : Type 0 where
  pending running completed failed : ExecutionPlanRunStatus

pub data ExecutionStepStatus : Type 0 where
  pending running retrying completed failed : ExecutionStepStatus

pub record ExecutionPlanRun : Type 0 where
  pub id : ℕ
  pub session_id : ℕ
  pub input : Text
  pub rationale : Text
  pub status : ExecutionPlanRunStatus
  pub result : Option Text
  pub error_message : Option Message
  pub started_at : Option ℕ
  pub completed_at : Option ℕ

pub record ExecutionPlanStepRun : Type 0 where
  pub id : ℕ
  pub plan_run_id : ℕ
  pub step_order : ℕ
  pub target_type : PlanStepTargetType
  pub target_code : Text
  pub status : ExecutionStepStatus
  pub attempt_count : ℕ
  pub input : Text
  pub output : Option Text
  pub error_message : Option Message
  pub started_at : Option ℕ
  pub completed_at : Option ℕ
