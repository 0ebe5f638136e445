-- ===== src/Settings.antt =====
-- app/core/config.py: the settings that the modelled services read.
use aiplatform.Shared.{Bool, Option, Text}

pub data AuthMode : Type 0 where
  trust_client_user_id keycloak_required : AuthMode

pub record Settings : Type 0 where
  pub feature_quota_management : Bool
  pub feature_execution_engine : Bool
  pub feature_planning_engine : Bool
  pub feature_ui_skills : Bool
  pub feature_keycloak_auth : Bool
  pub auth_mode : AuthMode
  pub keycloak_issuer_url : Option Text
  pub keycloak_realm : Option Text
  pub keycloak_jwks_url : Option Text
  pub keycloak_audience : Option Text
  pub openai_api_key : Option Text
  pub anthropic_api_key : Option Text
