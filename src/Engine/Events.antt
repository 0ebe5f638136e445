-- ===== src/Engine/Events.antt =====
-- How one event of agno's becomes one of the platform's: the event maps, `_build_stream_payload`
-- and the bodies of the loops of app/agno_runtime/engine.py.
use aiplatform.Shared.{
  Bool, ◌&&◌, ◌||◌, Option, none, some, List, [], ◌∷◌, Text, codes, same_text, same_name, or_else,
  is_filled, if◌then◌else◌,
}
use aiplatform.Engine.Actions.{UiActionPlan, get_key}
use aiplatform.Engine.Metrics.{Metrics}
use aiplatform.Engine.Dedupe.{dedupe_self_concatenated}

-- An event of agno's. `event` and `team_id` are attributes that a class may lack; the elements of
-- `tools` are opaque.
pub record AgnoEvent : Type 0 where
  pub event : Option Text
  pub class_name : Text
  pub content : Option Text
  pub team_id : Option Text
  pub tools : List Text

-- The keys of a payload, each there or not.
pub record Payload : Type 0 where
  pub agno_event : Option Text
  pub content : Option Text
  pub is_assistant_content : Option Bool
  pub tools : Option (List Text)
  pub metrics : Option Metrics
  pub error : Option Text
  pub ui_action_plan : Option UiActionPlan

pub record EngineEvent : Type 0 where
  pub event_type : Text
  pub payload : Payload

abbrev pub no_payload : Payload
no_payload = record {
  agno_event = none;
  content = none;
  is_assistant_content = none;
  tools = none;
  metrics = none;
  error = none;
  ui_action_plan = none;
}

-- `_AGNO_EVENT_MAP`
abbrev pub agno_event_map : List (Text × Text)
agno_event_map =
    (codes "RunStarted", codes "agent_started")
    ∷ (codes "ReasoningStarted", codes "reasoning_started")
    ∷ (codes "ToolCallStarted", codes "tool_selected")
    ∷ (codes "ToolCallCompleted", codes "tool_call_completed")
    ∷ (codes "RunResponseContent", codes "agent_response")
    ∷ (codes "RunCompleted", codes "agent_completed")
    ∷ (codes "MemoryUpdateStarted", codes "memory_update_started")
    ∷ (codes "MemoryUpdateCompleted", codes "memory_update_completed")
    ∷ (codes "RunError", codes "error")
    ∷ []

-- `_AGNO_TEAM_EVENT_MAP`
abbrev pub agno_team_event_map : List (Text × Text)
agno_team_event_map =
    (codes "TeamRunStarted", codes "agent_started")
    ∷ (codes "TeamReasoningStarted", codes "reasoning_started")
    ∷ (codes "TeamToolCallStarted", codes "tool_selected")
    ∷ (codes "TeamToolCallCompleted", codes "tool_call_completed")
    ∷ (codes "TeamRunResponseContent", codes "agent_response")
    ∷ (codes "TeamRunCompleted", codes "agent_completed")
    ∷ (codes "TeamMemoryUpdateStarted", codes "memory_update_started")
    ∷ (codes "TeamMemoryUpdateCompleted", codes "memory_update_completed")
    ∷ (codes "TeamRunError", codes "error")
    ∷ []

-- `_ASSISTANT_CONTENT_EVENT_NAMES` and `_ASSISTANT_CONTENT_TEAM_EVENT_NAMES`
unfoldable pub is_agent_delta : Text → Bool
is_agent_delta name = same_text name (codes "RunResponseContent")

unfoldable pub is_team_delta : Text → Bool
is_team_delta name = same_text name (codes "TeamRunResponseContent")

-- `getattr(event, "event", None) or type(event).__name__`
abbrev pub event_name : AgnoEvent → Text
event_name a = elim a.event [
  | none ↦ a.class_name
  | some t ↦ if is_filled t then t else a.class_name
]

-- `map.get(event_name, "agent_response")`
unfoldable pub mapped_type : List (Text × Text) → Text → Text
mapped_type m name = elim (get_key name m) [ none ↦ codes "agent_response" | some t ↦ t ]

unfoldable pub build_stream_payload : Text → Payload → Payload
unfolding is_agent_delta is_team_delta
build_stream_payload name p =
    let is_assistant = is_agent_delta name || is_team_delta name in
    record p {
      content = if is_assistant then p.content else none;
      is_assistant_content = some is_assistant;
    }

-- `p.update(q)`: the keys of `q` replace those of `p`, and no key of `p` goes away.
abbrev pub updated : Payload → Payload → Payload
updated p q = record {
  agno_event = or_else q.agno_event p.agno_event;
  content = or_else q.content p.content;
  is_assistant_content = or_else q.is_assistant_content p.is_assistant_content;
  tools = or_else q.tools p.tools;
  metrics = or_else q.metrics p.metrics;
  error = or_else q.error p.error;
  ui_action_plan = or_else q.ui_action_plan p.ui_action_plan;
}

-- `if content: payload["content"] = ...`
abbrev pub deduped : Option Text → Option Text
deduped none = none
deduped (some t) = if is_filled t then some (dedupe_self_concatenated t) else none

-- `if tool_calls: payload["tools"] = tool_calls`
abbrev pub with_tools : List Text → Payload → Payload
with_tools [] p = p
with_tools (t ∷ ts) p = record p { tools = some (t ∷ ts) }

-- The body of the loop of `run_stream`.
unfoldable pub agent_event : AgnoEvent → EngineEvent
unfolding mapped_type build_stream_payload dedupe_self_concatenated
agent_event a =
    let name = event_name a in
    let p = record no_payload { agno_event = some name; content = deduped a.content } in
    record {
      event_type = mapped_type agno_event_map name;
      payload = with_tools a.tools (updated p (build_stream_payload name p));
    }

-- Is a content event the own leader's?
unfoldable pub is_own_delta : Text → AgnoEvent → Bool
unfolding is_team_delta
is_own_delta own_team_id a = is_team_delta (event_name a) && same_name a.team_id (some own_team_id)

abbrev pub with_content : Option Text → Bool → Payload → Payload
with_content none own p = p
with_content (some t) own p = record p { content = some t; is_assistant_content = some own }

-- The body of the loops of `run_team_stream` and `run_root_stream`.
unfoldable pub team_event : Text → AgnoEvent → EngineEvent
unfolding mapped_type is_own_delta dedupe_self_concatenated
team_event own_team_id a =
    let name = event_name a in
    let p = record no_payload { agno_event = some name } in
    record {
      event_type = mapped_type agno_team_event_map name;
      payload =
          with_tools a.tools (with_content (deduped a.content) (is_own_delta own_team_id a) p);
    }
