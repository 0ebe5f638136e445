-- ===== src/Models/Workflows.antt =====
-- app/models/workflow.py, app/models/workflow_run.py and app/models/workflow_schedule.py
use aiplatform.Shared.{ℕ, Bool, Option, Text}
use aiplatform.Errors.{Message}

pub data WorkflowStepType : Type 0 where
  agent team : WorkflowStepType

pub record Workflow : Type 0 where
  pub id : ℕ
  pub agent_os_id : ℕ
  pub code : Text
  pub name : Text
  pub team_id : Option ℕ
  pub enabled : Bool
  pub deleted : Bool

pub record WorkflowStep : Type 0 where
  pub id : ℕ
  pub workflow_id : ℕ
  pub step_order : ℕ
  pub step_type : WorkflowStepType
  pub agent_id : Option ℕ
  pub team_id : Option ℕ

pub data WorkflowRunStatus : Type 0 where
  pending running completed failed : WorkflowRunStatus

pub data WorkflowStepStatus : Type 0 where
  pending running completed failed : WorkflowStepStatus

pub record WorkflowRun : Type 0 where
  pub id : ℕ
  pub workflow_id : ℕ
  pub session_id : ℕ
  pub status : WorkflowRunStatus
  pub input : Text
  pub result : Option Text
  pub error_message : Option Message
  pub started_at : Option ℕ
  pub completed_at : Option ℕ
  pub created_by : Option Text

pub data WorkflowEventType : Type 0 where
  workflow_started workflow_step_started workflow_step_completed : WorkflowEventType
  workflow_completed workflow_failed : WorkflowEventType

-- The JSON payloads that `WorkflowRunService` writes.
pub data WorkflowPayload : Type 0 where
  of_input : Text → WorkflowPayload
  of_step : ℕ → WorkflowStepType → WorkflowPayload
  of_step_order : ℕ → WorkflowPayload
  of_result_length : ℕ → WorkflowPayload
  of_error : Message → WorkflowPayload

pub record WorkflowEvent : Type 0 where
  pub workflow_run_id : ℕ
  pub event_type : WorkflowEventType
  pub payload : WorkflowPayload

pub record WorkflowRunStep : Type 0 where
  pub id : ℕ
  pub workflow_run_id : ℕ
  pub workflow_step_id : ℕ
  pub step_order : ℕ
  pub status : WorkflowStepStatus
  pub input : Text
  pub output : Option Text
  pub error_message : Option Message
  pub started_at : Option ℕ
  pub completed_at : Option ℕ

pub data ScheduleType : Type 0 where
  cron interval : ScheduleType

pub record WorkflowSchedule : Type 0 where
  pub id : ℕ
  pub workflow_id : ℕ
  pub schedule_type : ScheduleType
  pub cron_expression : Option Text
  pub interval_seconds : Option ℕ
  pub input_template : Text
  pub user_id : Option Text
  pub enabled : Bool
  pub deleted : Bool
  pub next_run_at : Option ℕ
  pub last_run_at : Option ℕ
  pub last_status : Option WorkflowRunStatus
  pub last_error : Option Message
  pub last_workflow_run_id : Option ℕ
