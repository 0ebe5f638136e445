-- ===== src/Chat/Examples.antt =====
-- Concrete chat calls, and the theorems applied to them.
use aiplatform.Shared.{◌≡◌, refl, true, false, none, some, [], ◌∷◌, codes, String, ◌==◌}
use aiplatform.State.Durable.{IsDurable}
use aiplatform.Errors.{Failure, text, raised, ErrorClass}
use aiplatform.Exec.{Result, ok, err}
use aiplatform.Models.{AgentOs, Team, Agent, AgentRun}
use aiplatform.State.{World, Outside, EventStream, StreamEvent}
use aiplatform.State.Examples.{empty_db, blank, echo, all_on}
use aiplatform.Quota.Policies.{select_effective_policies}
use aiplatform.Chat.Runs.{new_run}
use aiplatform.Chat.Merge.{merge_content_parts}
use aiplatform.Chat.Opening.{ChatRequest, Served, Opened, get_or_create_session, session_row}
use aiplatform.Chat.Turn.{streamed_turn, handle_chat}
use aiplatform.Chat.Stream.{handle_chat_stream}
use aiplatform.Chat.Ended.{IsReported}
use aiplatform.Chat.Outcome.{
  IsRaised, handle_chat_stream-IsDurable, handle_chat_stream-Kept, handle_chat_stream-IsReported,
}
use aiplatform.Chat.Dispatch.{root_context, resolve_dispatch_context}
use aiplatform.Chat.Serving.{IsResolved, resolve_dispatch_context-IsResolved}
use aiplatform.Chat.Owner.{chat_session_owner}
use aiplatform.Chat.Completed.{TurnEnds, streamed_turn-TurnEnds}

abbrev pub enterprise : AgentOs
enterprise = record {
  id = 7;
  code = codes "enterprise";
  enabled = true;
  deleted = false;
  default_model_id = none;
  shared_prompt_id = none;
}

abbrev pub sales : Team
sales = record {
  id = 6;
  agent_os_id = 7;
  code = codes "sales";
  name = codes "Sales";
  enabled = true;
  deleted = false;
  team_prompt_id = none;
}

abbrev pub seller : Agent
seller = record {
  id = 5;
  team_id = 6;
  code = codes "seller";
  name = codes "Seller";
  enabled = true;
  deleted = false;
  model_id = none;
  temperature = none;
  prompt_id = none;
}

abbrev pub shop : World
shop =
    blank
      (record empty_db { agent_oses = enterprise ∷ []; teams = sales ∷ []; agents = seller ∷ [] })

abbrev hello : ChatRequest
hello = record {
  agent_os = codes "enterprise";
  team = some (codes "sales");
  message = codes "hello";
  session_id = some 30;
  user_id = some (codes "alice");
}

abbrev said : String → StreamEvent
said s = record {
  name = codes "agent_response";
  payload = record {
    content = some (codes s);
    is_assistant_content = true;
    input_tokens = 3;
    output_tokens = 4;
  };
}

abbrev two_parts : EventStream
two_parts = record { events = said "Good" ∷ said "day." ∷ []; failure = none }

-- Agno answers in two parts.
abbrev polite : Outside
polite = record echo { stream_team = λ n a t. two_parts; stream_root = λ n a t. two_parts }

-- The client's stop arrives after the first part.
abbrev stopped : Outside
stopped = record polite { cancel_requested = λ n r. some (n == 2) }

abbrev streaming : Result (Unit {0}) × World
streaming = handle_chat_stream polite all_on none hello shop

merged : merge_content_parts (codes "Good" ∷ codes "day." ∷ []) ≡ codes "Good day."
unfolding merge_content_parts
merged = refl

answered_run : streaming.0 ≡ ok tt
unfolding handle_chat_stream select_effective_policies
answered_run = refl

handle_chat_stream-IsDurable_example : IsDurable streaming.1
handle_chat_stream-IsDurable_example = handle_chat_stream-IsDurable polite all_on none hello shop tt

stopped_run : (handle_chat_stream stopped all_on none hello shop).0 ≡ ok tt
unfolding handle_chat_stream select_effective_policies
stopped_run = refl

handle_chat_stream-IsReported_example :
    IsReported (handle_chat_stream stopped all_on none hello shop).1
handle_chat_stream-IsReported_example =
    handle_chat_stream-IsReported stopped all_on none hello shop tt stopped_run

found :
    resolve_dispatch_context hello.agent_os none shop.db
    ≡ ok (
        root_context enterprise
          (record { agent_os = enterprise; team = sales; members = seller ∷ [] } ∷ []))
unfolding resolve_dispatch_context
found = refl

resolve_dispatch_context-IsResolved_example : IsResolved (
    root_context enterprise
      (record { agent_os = enterprise; team = sales; members = seller ∷ [] } ∷ []))
resolve_dispatch_context-IsResolved_example =
    resolve_dispatch_context-IsResolved hello.agent_os none shop.db
      (root_context enterprise
        (record { agent_os = enterprise; team = sales; members = seller ∷ [] } ∷ []))
      found

abbrev nowhere : ChatRequest
nowhere = record hello { team = some (codes "legal") }

abbrev no_team : Failure
no_team = raised ErrorClass.runtime_execution_failed (text "Team not found or disabled")

refused_call : (handle_chat_stream polite all_on none nowhere shop).0 ≡ err no_team
unfolding handle_chat_stream select_effective_policies
refused_call = refl

handle_chat_stream-Kept_example :
    IsRaised polite all_on shop (handle_chat_stream polite all_on none nowhere shop) no_team
handle_chat_stream-Kept_example =
    handle_chat_stream-Kept polite all_on none nowhere shop no_team refused_call

abbrev desk : Served
desk = record { agent_os = enterprise; team = sales; agent = seller }

opened_session : (get_or_create_session hello desk shop).0 ≡ ok (session_row hello desk 30)
unfolding get_or_create_session
opened_session = refl

chat_session_owner_example :
    ((session_row hello desk 30).user_id ≡ hello.user_id) × ((session_row hello desk 30).id ≡ 30)
chat_session_owner_example =
    chat_session_owner hello desk shop (session_row hello desk 30) opened_session

abbrev turn : Opened
turn = record { session_id = 30; run_id = 40 }

abbrev row : AgentRun
row = new_run 40 30 5 (codes "hello")

abbrev with_run : World
with_run = blank (record empty_db { agent_runs = row ∷ [] })

streamed_turn-TurnEnds_example :
    TurnEnds 40 (streamed_turn polite all_on [] hello (λ w. two_parts) desk turn with_run)
streamed_turn-TurnEnds_example =
    streamed_turn-TurnEnds polite all_on [] hello desk turn (λ w. two_parts) with_run row
      (λ n. refl) refl

-- The audit table refuses every insert.
abbrev unlucky : Outside
unlucky = record polite { usage_insert_error = λ n. some (text "disk full") }

-- The whole call says that all is well, and leaves an empty table of runs.
lost_chat :
    (handle_chat unlucky all_on none (record hello { team = none }) shop).1.db.agent_runs ≡ []
unfolding handle_chat select_effective_policies
lost_chat = refl
