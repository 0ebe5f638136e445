-- ===== src/State/Tables.antt =====
-- The tables, the Redis counters' keys and the events that the streaming endpoints yield.
use aiplatform.Shared.{ℕ, Option, List, Text}
use aiplatform.Errors.{Message}
use aiplatform.Models.{
  AgentOs, Team, Agent, ModelRegistry, Workflow, WorkflowStep, WorkflowStepType, WorkflowRun,
  WorkflowEvent, WorkflowRunStep, WorkflowSchedule, ChatSession, ChatMessage, AgentRun, AgentEvent,
  StreamPayload, QuotaPolicy, QuotaUsageEvent, QuotaScopeType, QuotaMetric, QuotaPeriod,
  ExecutionPlanRun, ExecutionPlanStepRun, WorkflowWebhook, CapabilityAssignment, AgentSkill,
  AgentMemory, Prompt, Skill, Attachment,
}

-- `next_id` stands for `uuid4`: every new row takes it, and no earlier row has it.
pub record Db : Type 0 where
  pub next_id : ℕ
  pub agent_oses : List AgentOs
  pub teams : List Team
  pub agents : List Agent
  pub agent_os_capabilities : List CapabilityAssignment
  pub team_capabilities : List CapabilityAssignment
  pub agent_capabilities : List CapabilityAssignment
  pub skill_capabilities : List CapabilityAssignment
  pub agent_skills : List AgentSkill
  pub skills : List Skill
  pub attachments : List Attachment
  pub agent_memories : List AgentMemory
  pub prompts : List Prompt
  pub model_registry : List ModelRegistry
  pub workflows : List Workflow
  pub workflow_steps : List WorkflowStep
  pub workflow_schedules : List WorkflowSchedule
  pub workflow_webhooks : List WorkflowWebhook
  pub chat_sessions : List ChatSession
  pub chat_messages : List ChatMessage
  pub workflow_runs : List WorkflowRun
  pub workflow_run_steps : List WorkflowRunStep
  pub workflow_events : List WorkflowEvent
  pub agent_runs : List AgentRun
  pub agent_events : List AgentEvent
  pub execution_plan_runs : List ExecutionPlanRun
  pub execution_plan_step_runs : List ExecutionPlanStepRun
  pub quota_policies : List QuotaPolicy
  pub quota_usage_events : List QuotaUsageEvent

-- The tables that tools write in the session of the run that calls them: `remember_fact` and
-- `trigger_workflow` (app/agno_runtime/explicit_memory.py, app/workflowskill/service.py).
pub record ToolRows : Type 0 where
  pub next_id : ℕ
  pub agent_memories : List AgentMemory
  pub chat_sessions : List ChatSession
  pub chat_messages : List ChatMessage
  pub workflow_runs : List WorkflowRun
  pub workflow_run_steps : List WorkflowRunStep
  pub workflow_events : List WorkflowEvent

abbrev pub with_tool_rows : ToolRows → Db → Db
with_tool_rows r d = record d {
  next_id = r.next_id;
  agent_memories = r.agent_memories;
  chat_sessions = r.chat_sessions;
  chat_messages = r.chat_messages;
  workflow_runs = r.workflow_runs;
  workflow_run_steps = r.workflow_run_steps;
  workflow_events = r.workflow_events;
}

-- The label that `_period_bucket` gives to a period.
pub data Bucket : Type 0 where
  of_day : ℕ → ℕ → ℕ → Bucket
  of_month : ℕ → ℕ → Bucket
  of_window : ℕ → Bucket

-- The parts that `_policy_key` joins.
pub record CounterKey : Type 0 where
  pub scope_type : QuotaScopeType
  pub scope_value : Text
  pub model_id : Option ℕ
  pub metric : QuotaMetric
  pub period : QuotaPeriod
  pub bucket : Bucket

-- The commands of a call that write to Redis.
pub data RedisCommand : Type 0 where
  incrbyfloat : CounterKey → ℕ → RedisCommand
  expire : CounterKey → ℕ → RedisCommand
  delete_cancel : ℕ → RedisCommand

-- The dicts that `run_workflow_stream` and `handle_chat_stream` yield.
pub data StreamItem : Type 0 where
  workflow_started : ℕ → Text → StreamItem
  workflow_step_started : ℕ → ℕ → WorkflowStepType → StreamItem
  workflow_step_event : ℕ → ℕ → StreamPayload → StreamItem
  workflow_step_completed : ℕ → ℕ → Text → StreamItem
  workflow_step_failed : ℕ → ℕ → Message → StreamItem
  workflow_completed : ℕ → Text → StreamItem
  workflow_failed : ℕ → Message → StreamItem
  chat_started : ℕ → ℕ → StreamItem
  chat_event : ℕ → ℕ → Text → StreamPayload → StreamItem
  chat_completed : ℕ → ℕ → Text → StreamItem
  chat_error : ℕ → ℕ → Message → StreamItem
  chat_cancelled : ℕ → ℕ → Text → StreamItem
