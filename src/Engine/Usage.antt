-- ===== src/Engine/Usage.antt =====
-- What the loops of app/services/chat_service.py read of the engine's events.
use aiplatform.Shared.{Bool, false, Option, none, some, List, map}
use aiplatform.Models.{StreamPayload}
use aiplatform.State.{StreamEvent}
use aiplatform.Engine.Metrics.{extract_token_usage}
use aiplatform.Engine.Events.{Payload, EngineEvent}

-- `bool(payload.get("is_assistant_content"))`
abbrev pub is_set : Option Bool → Bool
is_set none = false
is_set (some b) = b

unfoldable pub read_payload : Payload → StreamPayload
unfolding extract_token_usage
read_payload p = record {
  content = p.content;
  is_assistant_content = is_set p.is_assistant_content;
  input_tokens = (extract_token_usage p.metrics).0;
  output_tokens = (extract_token_usage p.metrics).1;
}

unfoldable pub read_event : EngineEvent → StreamEvent
unfolding read_payload
read_event e = record { name = e.event_type; payload = read_payload e.payload }

abbrev pub read_events : List EngineEvent → List StreamEvent
read_events es = map read_event es
