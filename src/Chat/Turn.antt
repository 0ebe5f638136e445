-- ===== src/Chat/Turn.antt =====
-- `ChatService.handle_chat`, behind POST /chat: one function for each of its three branches.
use aiplatform.Shared.{ℕ, Option, none, some, List, [], ◌∷◌, Text, head?}
use aiplatform.Errors.{Message, text, raised, ErrorClass}
use aiplatform.Exec.{Result, ok, err, Exec, lift, or_raise, modify, gets, ◌>>=◌, ◌>>◌}
use aiplatform.Settings.{Settings}
use aiplatform.Models.{AgentOs, Team, Agent}
use aiplatform.State.{calling, World, Outside, Reply, answered, failed, StreamEvent, EventStream}
use aiplatform.Chat.Runs.{mark_running, mark_failed}
use aiplatform.Identity.Tokens.{VerifiedIdentity}
use aiplatform.Chat.Identity.{resolve_effective_user_id}
use aiplatform.Chat.Merge.{merge_content_parts}
use aiplatform.Chat.Dispatch.{
  DispatchContext, runtime_context, team_context, root_context, TeamContext,
  resolve_dispatch_context,
}
use aiplatform.Chat.Opening.{
  ChatRequest, Served, Opened, Gathered, nothing, gather, keep_event, open_turn, complete_run,
  account,
}

pub record ChatResponse : Type 0 where
  pub session_id : ℕ
  pub run_id : ℕ
  pub agent_os : Text
  pub team : Text
  pub agent : Text
  pub message : Text

abbrev pub answer_of : Served → Opened → Text → ChatResponse
answer_of s t output = record {
  session_id = t.session_id;
  run_id = t.run_id;
  agent_os = s.agent_os.code;
  team = s.team.code;
  agent = s.agent.code;
  message = output;
}

-- `async for event in stream`, to its end
unfoldable pub drain : ℕ → List StreamEvent → Gathered → World → Gathered × World
unfolding keep_event gather
drain run_id [] g w = (g, w)
drain run_id (e ∷ es) g w = drain run_id es (gather e.payload g) (keep_event run_id e w)

module _ (o : Outside) (settings : Settings) (groups : List Text) (req : ChatRequest) where
  -- Behind the run: its rows, its usage and the response.
  unfoldable pub finish_turn : Served → Opened → Text → ℕ → ℕ → Exec World ChatResponse
  unfolding complete_run account
  finish_turn s t output i n w =
      let (_, w') = account o settings groups req s t i n (complete_run o t output w) in
      (ok (answer_of s t output), w')

  -- Behind the loop: `except RuntimeExecutionError`, or the end of the turn.
  unfoldable pub settle :
      Served → Opened → Option Message → Gathered × World → Result ChatResponse × World
  unfolding finish_turn mark_failed merge_content_parts
  settle s t (some m) (g, w) =
      (err (raised ErrorClass.runtime_execution_failed m), mark_failed o t.run_id m w)
  settle s t none (g, w) =
      finish_turn s t (merge_content_parts g.parts) g.input_tokens g.output_tokens w

  -- A turn that drives a stream.
  unfoldable pub streamed_turn : (World → EventStream) → Served → Opened → Exec World ChatResponse
  unfolding mark_running drain settle
  streamed_turn stream s t w =
      let w₁ = mark_running o t.run_id w in
      let events = stream w₁ in
      settle s t events.failure (drain t.run_id events.events nothing (calling w₁))

  -- `run_team`, whose exception is not caught here.
  unfoldable pub settle_reply : Served → Opened → Reply → Exec World ChatResponse
  unfolding finish_turn
  settle_reply s t (answered output) w = finish_turn s t output 0 0 w
  settle_reply s t (failed m) w = (err (raised ErrorClass.runtime_execution_failed m), w)

  -- isinstance(ctx, ResolvedRuntimeContext)
  unfoldable pub agent_turn : AgentOs → Team → Agent → Exec World ChatResponse
  unfolding open_turn streamed_turn
  agent_turn os team agent = do
    let s : Served = record { agent_os = os; team = team; agent = agent }
    t ← open_turn o settings groups req s
    streamed_turn (λ w. o.stream_agent w.calls agent.id req.message) s t

  -- `member_contexts[0]`
  unfoldable pub team_turn : TeamContext → Exec World ChatResponse
  unfolding open_turn mark_running settle_reply
  team_turn c = do
    agent ← or_raise (head? c.members) (raised ErrorClass.other (text "IndexError"))
    let s : Served = record { agent_os = c.agent_os; team = c.team; agent = agent }
    t ← open_turn o settings groups req s
    modify (mark_running o t.run_id)
    reply ← gets (λ w. o.run_team w.calls c.team.id req.message)
    modify calling
    settle_reply s t reply

  unfoldable pub root_turn : AgentOs → List TeamContext → Exec World ChatResponse
  unfolding open_turn streamed_turn
  root_turn os teams = do
    c ← or_raise (head? teams) (raised ErrorClass.other (text "IndexError"))
    agent ← or_raise (head? c.members) (raised ErrorClass.other (text "IndexError"))
    let s : Served = record { agent_os = os; team = c.team; agent = agent }
    t ← open_turn o settings groups req s
    streamed_turn (λ w. o.stream_root w.calls os.id req.message) s t

  unfoldable pub turn_in : DispatchContext → Exec World ChatResponse
  unfolding agent_turn team_turn root_turn
  turn_in (runtime_context os team agent) = agent_turn os team agent
  turn_in (team_context c) = team_turn c
  turn_in (root_context os teams) = root_turn os teams

-- The request with the user that it is really for.
abbrev pub identified : Option Text → ChatRequest → ChatRequest
identified user_id req = record req { user_id = user_id }

unfoldable pub handle_chat :
    Outside → Settings → Option VerifiedIdentity → ChatRequest → Exec World ChatResponse
unfolding resolve_effective_user_id resolve_dispatch_context turn_in
handle_chat o settings identity req w =
    let (user_id, groups) = resolve_effective_user_id identity req.user_id settings.auth_mode in
    (lift (resolve_dispatch_context req.agent_os req.team w.db)
        >>= turn_in o settings groups (identified user_id req))
      w
