-- ===== src/Engine/Streams.antt =====
-- The streaming runs of app/agno_runtime/engine.py.
use aiplatform.Shared.{
  ℕ, false, Option, none, some, List, [], ◌∷◌, ◌++◌, Text, codes, is_filled, if◌then◌else◌,
}
use aiplatform.Errors.{Message, raised, ErrorClass}
use aiplatform.Exec.{Result, ok, err}
use aiplatform.Engine.Actions.{
  Collector, Proposal, UiActionPlan, EngineState, reset_ui_action_collectors, propose_to,
  aggregate_ui_action_plan,
}
use aiplatform.Engine.Metrics.{Metrics, AgnoMetrics, extract_final_metrics}
use aiplatform.Engine.Events.{AgnoEvent, EngineEvent, no_payload}

-- What happens in a run of agno's: it surfaces an event, or the model calls the tool
-- `propose_ui_action` of the agent whose collector has that number.
pub data Act : Type 0 where
  surfaced : AgnoEvent → Act
  proposed : ℕ → Proposal → Act

-- A run: what happens in it, the exception that ends it, if one does, and the `run_response` that
-- the finished object has.
pub record AgnoRun : Type 0 where
  pub acts : List Act
  pub failure : Option Message
  pub run_response : Option AgnoMetrics

-- What the generator has yielded, and how it ends.
pub record Streamed : Type 0 where
  pub events : List EngineEvent
  pub result : Result (Unit {0})

module _ (upper : Text → Text) where
  -- `async for event in stream`
  unfoldable pub forward_events :
      (AgnoEvent → EngineEvent) → List Act → List Collector → List EngineEvent × List Collector
  unfolding propose_to
  forward_events f [] cs = ([], cs)
  forward_events f (surfaced a ∷ acts) cs =
      let (es, cs') = forward_events f acts cs in (f a ∷ es, cs')
  forward_events f (proposed k p ∷ acts) cs = forward_events f acts (propose_to upper k p cs)

-- The extra event with the token usage.
unfoldable pub completed_events : Option Metrics → List EngineEvent
completed_events none = []
completed_events (some []) = []
completed_events (some (m ∷ ms)) =
    (record {
      event_type = codes "agent_completed";
      payload = record no_payload { is_assistant_content = some false; metrics = some (m ∷ ms) };
    })
    ∷ []

-- The last event, if any action was proposed.
unfoldable pub plan_events : UiActionPlan → List EngineEvent
plan_events plan =
    if is_filled plan.actions
    then (record {
      event_type = codes "ui_action_plan";
      payload = record no_payload { is_assistant_content = some false; ui_action_plan = some plan };
    })
      ∷ []
    else []

module _ (shown : Message → Text) where
  -- `yield {"event_type": "error", ...}`
  unfoldable pub error_event : Message → EngineEvent
  error_event m = record {
    event_type = codes "error";
    payload = record no_payload { error = some (shown m) };
  }

  -- The exception handler, or what follows the loop.
  unfoldable pub finish_stream :
      Text
      → Option Message
      → Option AgnoMetrics
      → List EngineEvent × List Collector
      → EngineState
      → Streamed × EngineState
  unfolding error_event completed_events plan_events aggregate_ui_action_plan extract_final_metrics
  finish_stream session_id (some m) response (es, cs) e = (
    record {
      events = es ++ error_event m ∷ [];
      result = err (raised ErrorClass.runtime_execution_failed m);
    },
    record e { collectors = cs },
  )
  finish_stream session_id none response (es, cs) e =
      let plan = aggregate_ui_action_plan (some session_id) cs in
      let extra = completed_events (extract_final_metrics response) ++ plan_events plan in
      (
        record { events = es ++ extra; result = ok tt },
        record { collectors = cs; last_ui_action_plan = some plan },
      )

module _ (upper : Text → Text) (shown : Message → Text) where
  -- What follows the start of a run, within the same `try`.
  unfoldable pub stream_from :
      (AgnoEvent → EngineEvent) → Text → Result AgnoRun × EngineState → Streamed × EngineState
  unfolding error_event forward_events finish_stream
  stream_from f session_id (err x, e) = (
    record {
      events = error_event shown x.message ∷ [];
      result = err (raised ErrorClass.runtime_execution_failed x.message);
    },
    e,
  )
  stream_from f session_id (ok run, e) =
      finish_stream shown session_id run.failure run.run_response
        (forward_events upper f run.acts e.collectors) e

  -- The part that the three runs share. `start` opens the tool sessions, builds the agent or team
  -- and calls `arun`.
  unfoldable pub stream_run :
      (AgnoEvent → EngineEvent)
      → (EngineState → Result AgnoRun × EngineState)
      → Text
      → EngineState
      → Streamed × EngineState
  unfolding stream_from
  stream_run f start session_id e = stream_from f session_id (start (reset_ui_action_collectors e))
