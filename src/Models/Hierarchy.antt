-- ===== src/Models/Hierarchy.antt =====
-- app/models/hierarchy.py, app/models/prompt.py and app/models/model_registry.py
use aiplatform.Shared.{ℕ, Bool, Option, Text}
use aiplatform.Models.Webhooks.{Fields}

-- `deleted` is `deleted_at is not None`.
pub record AgentOs : Type 0 where
  pub id : ℕ
  pub code : Text
  pub enabled : Bool
  pub deleted : Bool
  pub default_model_id : Option ℕ
  pub shared_prompt_id : Option ℕ

pub record Team : Type 0 where
  pub id : ℕ
  pub agent_os_id : ℕ
  pub code : Text
  pub name : Text
  pub enabled : Bool
  pub deleted : Bool
  pub team_prompt_id : Option ℕ

pub record Agent : Type 0 where
  pub id : ℕ
  pub team_id : ℕ
  pub code : Text
  pub name : Text
  pub enabled : Bool
  pub deleted : Bool
  pub model_id : Option ℕ
  pub temperature : Option ℕ
  pub prompt_id : Option ℕ

-- Prices per 1000 tokens, in millionths of a dollar; the temperature in thousandths.
pub record ModelRegistry : Type 0 where
  pub id : ℕ
  pub provider : Text
  pub model : Text
  pub temperature : ℕ
  pub max_tokens : ℕ
  pub base_url : Option Text
  pub api_key : Option Text
  pub extra_client_params : Option Fields
  pub enabled : Bool
  pub deleted : Bool
  pub cost_per_1k_input_tokens : Option ℕ
  pub cost_per_1k_output_tokens : Option ℕ
