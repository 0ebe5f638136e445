-- ===== src/Models/Capabilities.antt =====
-- app/models/capability.py and app/models/skill.py
use aiplatform.Shared.{ℕ, Text}

-- A row of `agent_os_capabilities`, `team_capabilities`, `agent_capabilities` or
-- `skill_capabilities`: whom it is for, and the code.
pub record CapabilityAssignment : Type 0 where
  pub owner_id : ℕ
  pub capability_code : Text

pub record AgentSkill : Type 0 where
  pub agent_id : ℕ
  pub skill_id : ℕ
