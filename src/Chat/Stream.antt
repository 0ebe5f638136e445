-- ===== src/Chat/Stream.antt =====
-- `ChatService.handle_chat_stream`, behind POST /chat/stream. What it yields goes to `World.sent`;
-- the rendering of an event for the user interface (`build_event`) is left out.
use aiplatform.Shared.{Option, none, some, List, [], ◌∷◌, Text, head?, true, false}
use aiplatform.Errors.{Failure, Message, text, raised, ErrorClass}
use aiplatform.Exec.{Result, ok, err, Exec, lift, or_raise, ◌>>=◌}
use aiplatform.Settings.{Settings}
use aiplatform.Models.{AgentOs, Team, Agent, MessageRole}
use aiplatform.State.{
  committed, sent_after, calling, after_tools, World, Outside, StreamEvent, EventStream,
  redis_write, delete_cancel, chat_started, chat_event, chat_completed, chat_error, chat_cancelled,
}
use aiplatform.Workflow.Session.{add_message}
use aiplatform.Chat.Runs.{mark_running, mark_failed, mark_cancelled}
use aiplatform.Identity.Tokens.{VerifiedIdentity}
use aiplatform.Chat.Identity.{resolve_effective_user_id}
use aiplatform.Chat.Merge.{merge_content_parts}
use aiplatform.Chat.Dispatch.{
  DispatchContext, runtime_context, team_context, root_context, TeamContext,
  resolve_dispatch_context,
}
use aiplatform.Chat.Opening.{
  ChatRequest, Served, Opened, Gathered, nothing, gather, keep_event, open_turn, complete_run,
  account,
}
use aiplatform.Chat.Turn.{identified}

-- How the loop over the stream ends; `broken` is an exception of Redis' at a poll, which no handler
-- of the turn catches.
pub data LoopEnd : Type 0 where
  cancelled finished broken : LoopEnd

abbrev pub redis_failed : Failure
redis_failed = raised ErrorClass.other (text "redis.exceptions.RedisError")

-- The loop: each event is preceded by what the run's tools wrote and by a poll of the cancel key.
unfoldable pub forward :
    Outside → Opened → List StreamEvent → Gathered → World → LoopEnd × Gathered × World
unfolding keep_event gather
forward o t [] g w = (finished, g, after_tools o 0 w)
forward o t (e ∷ es) g w =
    let w₀ = calling (after_tools o 0 w) in
    let w₁ = committed (keep_event t.run_id e w₀) in
    let rest =
      forward o t es (gather e.payload g)
        (sent_after (chat_event t.run_id t.session_id e.name e.payload) w₁) in
    elim (o.cancel_requested w.calls t.run_id) [
      | none ↦ (broken, g, w₀)
      | some true ↦ (cancelled, g, w₀)
      | some false ↦ rest
    ]

-- `if partial_output:`
abbrev pub add_partial : Opened → Text → World → World
add_partial t [] w = w
add_partial t (c ∷ cs) w = add_message t.session_id (some t.run_id) MessageRole.assistant (c ∷ cs) w

unfoldable pub handle_cancellation : Outside → Opened → Gathered → World → World
unfolding mark_cancelled merge_content_parts add_message
handle_cancellation o t g w =
    let partial = merge_content_parts g.parts in
    let w₁ = committed (mark_cancelled o t.run_id partial (add_partial t partial w)) in
    sent_after (chat_cancelled t.run_id t.session_id partial)
      ((redis_write (delete_cancel t.run_id) w₁).1)

-- `except RuntimeExecutionError`
unfoldable pub report_error : Outside → Opened → Message → World → World
unfolding mark_failed
report_error o t m w =
    sent_after (chat_error t.run_id t.session_id m) (committed (mark_failed o t.run_id m w))

module _ (o : Outside) (settings : Settings) (groups : List Text) (req : ChatRequest) where
  -- Behind a loop that reached the end of the stream.
  unfoldable pub report_completed : Served → Opened → Gathered → World → World
  unfolding complete_run account merge_content_parts
  report_completed s t g w =
      let output = merge_content_parts g.parts in
      let w₁ = committed (complete_run o t output w) in
      sent_after (chat_completed t.run_id t.session_id output)
        ((account o settings groups req s t g.input_tokens g.output_tokens w₁).1)

  unfoldable pub settle_stream :
      Served → Opened → Option Message → LoopEnd × Gathered × World → Result (Unit {0}) × World
  unfolding handle_cancellation report_error report_completed
  settle_stream s t failure (broken, g, w) = (err redis_failed, w)
  settle_stream s t failure (cancelled, g, w) = (ok tt, handle_cancellation o t g w)
  settle_stream s t (some m) (finished, g, w) = (ok tt, report_error o t m w)
  settle_stream s t none (finished, g, w) = (ok tt, report_completed s t g w)

  -- From the commit of the opened turn on.
  unfoldable pub stream_turn : (World → EventStream) → Served → Opened → Exec World (Unit {0})
  unfolding mark_running forward settle_stream
  stream_turn stream s t w =
      let w₁ =
        sent_after (chat_started t.run_id t.session_id)
          (committed (mark_running o t.run_id (committed w))) in
      let events = stream w₁ in
      settle_stream s t events.failure (forward o t events.events nothing (calling w₁))

  -- A turn, opened and streamed.
  abbrev pub opened_stream : (World → EventStream) → Served → Exec World (Unit {0})
  opened_stream stream s = open_turn o settings groups req s >>= stream_turn stream s

  -- isinstance(ctx, ResolvedRuntimeContext)
  unfoldable pub agent_stream : AgentOs → Team → Agent → Exec World (Unit {0})
  unfolding open_turn stream_turn
  agent_stream os team agent =
      opened_stream (λ w. o.stream_agent w.calls agent.id req.message)
        (record { agent_os = os; team = team; agent = agent })

  unfoldable pub team_stream : TeamContext → Exec World (Unit {0})
  unfolding open_turn stream_turn
  team_stream c = do
    agent ← or_raise (head? c.members) (raised ErrorClass.other (text "IndexError"))
    opened_stream (λ w. o.stream_team w.calls c.team.id req.message)
        (record { agent_os = c.agent_os; team = c.team; agent = agent })

  unfoldable pub root_stream : AgentOs → List TeamContext → Exec World (Unit {0})
  unfolding open_turn stream_turn
  root_stream os teams = do
    c ← or_raise (head? teams) (raised ErrorClass.other (text "IndexError"))
    agent ← or_raise (head? c.members) (raised ErrorClass.other (text "IndexError"))
    opened_stream (λ w. o.stream_root w.calls os.id req.message)
        (record { agent_os = os; team = c.team; agent = agent })

  unfoldable pub stream_in : DispatchContext → Exec World (Unit {0})
  unfolding agent_stream team_stream root_stream
  stream_in (runtime_context os team agent) = agent_stream os team agent
  stream_in (team_context c) = team_stream c
  stream_in (root_context os teams) = root_stream os teams

unfoldable pub handle_chat_stream :
    Outside → Settings → Option VerifiedIdentity → ChatRequest → Exec World (Unit {0})
unfolding resolve_effective_user_id resolve_dispatch_context stream_in
handle_chat_stream o settings identity req w =
    let (user_id, groups) = resolve_effective_user_id identity req.user_id settings.auth_mode in
    (lift (resolve_dispatch_context req.agent_os req.team w.db)
        >>= stream_in o settings groups (identified user_id req))
      w
