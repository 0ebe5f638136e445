-- ===== src/Models/Memories.antt =====
-- app/models/memory.py and app/models/prompt.py
use aiplatform.Shared.{ℕ, Bool, Option, Text}

pub data MemoryType : Type 0 where
  conversation summary fact preference working_memory : MemoryType

pub record AgentMemory : Type 0 where
  pub id : ℕ
  pub agent_id : ℕ
  pub user_id : Option Text
  pub memory_type : MemoryType
  pub content : Text
  pub source_memory_id : Option Text

pub data PromptStatus : Type 0 where
  draft active archived : PromptStatus

pub record Prompt : Type 0 where
  pub id : ℕ
  pub code : Text
  pub version : ℕ
  pub content : Text
  pub status : PromptStatus
  pub deleted : Bool
