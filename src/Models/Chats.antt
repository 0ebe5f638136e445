-- ===== src/Models/Chats.antt =====
-- app/models/session.py and app/models/run.py
use aiplatform.Shared.{ℕ, Bool, Option, Text}
use aiplatform.Errors.{Message}

pub record ChatSession : Type 0 where
  pub id : ℕ
  pub agent_os_id : ℕ
  pub team_id : Option ℕ
  pub agent_id : Option ℕ
  pub user_id : Option Text
  pub title : Text
  pub deleted : Bool

pub data MessageRole : Type 0 where
  user assistant : MessageRole

pub record ChatMessage : Type 0 where
  pub session_id : ℕ
  pub run_id : Option ℕ
  pub role : MessageRole
  pub content : Text

pub data RunStatus : Type 0 where
  pending running tool_calling waiting completed failed cancelled : RunStatus

pub data EventType : Type 0 where
  agent_started reasoning_started tool_selected tool_call_started tool_call_completed : EventType
  agent_response agent_completed memory_update_started memory_update_completed : EventType
  error run_cancelled : EventType

pub record AgentRun : Type 0 where
  pub id : ℕ
  pub session_id : ℕ
  pub agent_id : ℕ
  pub status : RunStatus
  pub input : Text
  pub output : Option Text
  pub error_message : Option Message
  pub started_at : Option ℕ
  pub finished_at : Option ℕ

-- The JSON payloads of the rows that `RunTrackingService` writes by itself, and the payload of a
-- forwarded stream event, of which `content`, `is_assistant_content` and the token counts are read.
pub record StreamPayload : Type 0 where
  pub content : Option Text
  pub is_assistant_content : Bool
  pub input_tokens : ℕ
  pub output_tokens : ℕ

pub data RunPayload : Type 0 where
  of_input : Text → RunPayload
  of_output_length : ℕ → RunPayload
  of_error : Message → RunPayload
  of_cancel : Message → ℕ → RunPayload
  of_stream : StreamPayload → RunPayload

pub record AgentEvent : Type 0 where
  pub run_id : ℕ
  pub event_type : EventType
  pub payload : RunPayload
