-- ===== src/Chat/Opening.antt =====
-- app/services/chat_service.py: what the branches of `handle_chat` and `handle_chat_stream` share,
-- before and after the run.
use aiplatform.Shared.{
  ℕ, ◌+◌, ◌*◌, Bool, true, false, ◌&&◌, ◌||◌, not, Option, none, some, List, [], ◌∷◌, ◌++◌, Text,
  ◌==◌, same_text, page, first_where, is_filled, contains, if◌then◌else◌, or_else, codes,
}
use aiplatform.Exec.{ok, Exec, ◌>>=◌, ◌>>◌}
use aiplatform.Settings.{Settings}
use aiplatform.Models.{
  AgentOs, Team, Agent, ChatSession, MessageRole, EventType, StreamPayload, of_stream,
}
use aiplatform.State.{Db, World, Outside, StreamEvent}
use aiplatform.Quota.Service.{assert_within_quota, record_usage}
use aiplatform.Workflow.Session.{
  get_session, continue_session, insert_session, insert_new_session, add_message,
}
use aiplatform.Chat.Runs.{create_run, mark_completed, emit_event}

-- app/schemas/chat.py
pub record ChatRequest : Type 0 where
  pub agent_os : Text
  pub team : Option Text
  pub message : Text
  pub session_id : Option ℕ
  pub user_id : Option Text

-- The AgentOS, the team and the agent that a turn is recorded under.
pub record Served : Type 0 where
  pub agent_os : AgentOs
  pub team : Team
  pub agent : Agent

pub record Opened : Type 0 where
  pub session_id : ℕ
  pub run_id : ℕ

-- `model_id_for_quota`
abbrev pub model_of : Served → Option ℕ
model_of s = or_else s.agent.model_id s.agent_os.default_model_id

abbrev pub session_row : ChatRequest → Served → ℕ → ChatSession
session_row req s id = record {
  id = id;
  agent_os_id = s.agent_os.id;
  team_id = some s.team.id;
  agent_id = some s.agent.id;
  user_id = req.user_id;
  title = page 80 req.message;
  deleted = false;
}

unfoldable pub session_with : ChatRequest → Served → Option ℕ → Exec World ChatSession
unfolding get_session insert_session insert_new_session
session_with req s none w = insert_new_session (session_row req s) w
session_with req s (some id) w = elim (get_session id w.db) [
  | some existing ↦ continue_session req.user_id existing w
  | none ↦ insert_session (session_row req s id) w
]

unfoldable pub get_or_create_session : ChatRequest → Served → Exec World ChatSession
unfolding session_with
get_or_create_session req s = session_with req s req.session_id

-- The run's row, and the user's message.
unfoldable pub begin_run : ChatRequest → Served → ℕ → Exec World Opened
unfolding create_run add_message
begin_run req s session_id w =
    let (run, w₁) = create_run session_id s.agent.id req.message w in
    (
      ok (record { session_id = session_id; run_id = run.id }),
      add_message session_id (some run.id) MessageRole.user req.message w₁,
    )

module _ (o : Outside) (settings : Settings) (groups : List Text) (req : ChatRequest)
    (s : Served) where
  -- From the quota check to the user's message.
  unfoldable pub open_turn : Exec World Opened
  unfolding assert_within_quota get_or_create_session begin_run
  open_turn = do
    assert_within_quota o settings req.user_id groups (model_of s)
    session ← get_or_create_session req s
    begin_run req s session.id

-- What a loop over a stream gathers.
pub record Gathered : Type 0 where
  pub parts : List Text
  pub input_tokens : ℕ
  pub output_tokens : ℕ

abbrev pub nothing : Gathered
nothing = record { parts = []; input_tokens = 0; output_tokens = 0 }

-- `if content_piece and is_assistant_content`
abbrev pub piece : StreamPayload → List Text
piece p = elim p.content [
  | none ↦ []
  | some c ↦ if is_filled c && p.is_assistant_content then c ∷ [] else []
]

unfoldable pub gather : StreamPayload → Gathered → Gathered
gather p g = record {
  parts = g.parts ++ piece p;
  input_tokens = g.input_tokens + p.input_tokens;
  output_tokens = g.output_tokens + p.output_tokens;
}

-- `t in s`
abbrev starts_with : Text → Text → Bool
starts_with [] s = true
starts_with (c ∷ t) [] = false
starts_with (c ∷ t) (d ∷ s) = c == d && starts_with t s

abbrev has_part : Text → Text → Bool
has_part t [] = starts_with t []
has_part t (c ∷ s) = starts_with t (c ∷ s) || has_part t s

-- `str.lower`, on ASCII letters
abbrev capitals : List ℕ
capitals = codes "ABCDEFGHIJKLMNOPQRSTUVWXYZ"

abbrev lower_letter : ℕ → ℕ
lower_letter c = if contains c capitals then c + 32 else c

abbrev lower : Text → Text
lower [] = []
lower (c ∷ t) = lower_letter c ∷ lower t

-- `EventType(event_name)`
abbrev event_names : List (Text × EventType)
event_names =
    (codes "agent_started", EventType.agent_started)
    ∷ (codes "reasoning_started", EventType.reasoning_started)
    ∷ (codes "tool_selected", EventType.tool_selected)
    ∷ (codes "tool_call_started", EventType.tool_call_started)
    ∷ (codes "tool_call_completed", EventType.tool_call_completed)
    ∷ (codes "agent_response", EventType.agent_response)
    ∷ (codes "agent_completed", EventType.agent_completed)
    ∷ (codes "memory_update_started", EventType.memory_update_started)
    ∷ (codes "memory_update_completed", EventType.memory_update_completed)
    ∷ (codes "error", EventType.error)
    ∷ (codes "run_cancelled", EventType.run_cancelled)
    ∷ []

unfoldable pub safe_event_type : Text → EventType
safe_event_type name = elim (first_where (λ p. same_text p.0 name) event_names) [
  | some p ↦ p.1
  | none ↦
      if has_part (codes "tool") name
      then EventType.tool_call_started
      else (if has_part (codes "error") (lower name)
          then EventType.error
          else EventType.agent_response)
]

-- The row that an event of a stream leaves.
unfoldable pub keep_event : ℕ → StreamEvent → World → World
unfolding emit_event safe_event_type
keep_event run_id e = emit_event run_id (safe_event_type e.name) (of_stream e.payload)

-- The prices are per 1000 tokens in millionths of a dollar, so the cost comes in billionths.
abbrev price : Option ℕ → ℕ
price none = 0
price (some p) = p

abbrev cost_at : Option ℕ → Option ℕ → ℕ → ℕ → Option ℕ
cost_at none none i n = none
cost_at (some p) q i n = some (i * p + n * price q)
cost_at none (some q) i n = some (n * q)

unfoldable pub compute_cost_usd : Option ℕ → ℕ → ℕ → Db → Option ℕ
compute_cost_usd none i n d = none
compute_cost_usd (some id) i n d =
    elim (first_where (λ m. m.id == id && not m.deleted) d.model_registry) [
      | none ↦ none
      | some m ↦ cost_at m.cost_per_1k_input_tokens m.cost_per_1k_output_tokens i n
    ]

-- The assistant's message and the end of the run.
unfoldable pub complete_run : Outside → Opened → Text → World → World
unfolding add_message mark_completed
complete_run o t output w =
    mark_completed o t.run_id output
      (add_message t.session_id (some t.run_id) MessageRole.assistant output w)

module _ (o : Outside) (settings : Settings) (groups : List Text) (req : ChatRequest)
    (s : Served) where
  -- The cost, and the record of the usage.
  unfoldable pub account : Opened → ℕ → ℕ → Exec World (Unit {0})
  unfolding compute_cost_usd record_usage
  account t i n w =
      record_usage o settings (some t.run_id) req.user_id groups (model_of s) i n
        (compute_cost_usd (model_of s) i n w.db) w
