-- ===== src/Errors.antt =====
-- app/core/exceptions.py: the domain errors, and how app/main.py maps them to HTTP.
use aiplatform.Shared.{ℕ, String}

-- The text of an error. What a message interpolates beside a fixed text is an identifier or
-- another message.
pub data Message : Type 0 where
  text : String → Message
  about : String → ℕ → Message
  step_failed : ℕ → Message → Message
  plan_step_failed : ℕ → Message → Message

-- The exception classes. `other` is any exception that is not an `AgnoRuntimeError`.
pub data ErrorClass : Type 0 where
  quota_exceeded not_found conflict validation_failed : ErrorClass
  capability_resolution_failed mcp_gateway_error runtime_execution_failed other : ErrorClass

pub record Failure : Type 0 where
  pub kind : ErrorClass
  pub message : Message

unfoldable pub http_status : ErrorClass → ℕ
http_status ErrorClass.quota_exceeded = 429
http_status ErrorClass.not_found = 404
http_status ErrorClass.conflict = 409
http_status ErrorClass.validation_failed = 422
http_status ErrorClass.capability_resolution_failed = 422
http_status ErrorClass.mcp_gateway_error = 502
http_status ErrorClass.runtime_execution_failed = 500
http_status ErrorClass.other = 500

abbrev pub raised : ErrorClass → Message → Failure
raised k m = record { kind = k; message = m }
