-- ===== src/Engine/Runs.antt =====
-- app/agno_runtime/engine.py: the runs of agents, teams and root teams, streaming and not. The
-- `arun` of agno's objects and the sessions with the MCP gateway are parameters; closing a session
-- does not raise.
use aiplatform.Shared.{ℕ, Option, none, some, List, [], ◌∷◌, ◌++◌, Text, codes}
use aiplatform.Errors.{Message, Failure, raised, ErrorClass}
use aiplatform.Exec.{Result, ok, err}
use aiplatform.Models.{AgentOs}
use aiplatform.State.{Db}
use aiplatform.Memory.ModelChoice.{ModelClient, resolve_registry_entry, build_agno_model}
use aiplatform.Engine.Actions.{
  Collector, Proposal, EngineState, reset_ui_action_collectors, propose_to,
  aggregate_ui_action_plan,
}
use aiplatform.Engine.Dedupe.{dedupe_self_concatenated}
use aiplatform.Engine.Events.{agent_event, team_event}
use aiplatform.Engine.Streams.{AgnoRun, Streamed, stream_run}
use aiplatform.Engine.Contexts.{
  ResolvedRuntimeContext, ResolvedTeamContext, ResolvedRootContext, then_ok,
}
use aiplatform.Engine.Assembly.{AgentSpec, build_agno_agent}
use aiplatform.Engine.Tools.{Toolkit, Request}

-- The arguments of `AgnoTeam(...)`.
pub record TeamSpec : Type 0 where
  pub members : List AgentSpec
  pub model : ModelClient
  pub team_id : Text
  pub name : Text
  pub instructions : Text

pub record RootSpec : Type 0 where
  pub members : List TeamSpec
  pub model : ModelClient
  pub team_id : Text
  pub instructions : Text

-- A run that does not stream: the calls of the tool `propose_ui_action`, and `content` with
-- `str(response)`, or an exception.
pub record AgnoAnswer : Type 0 where
  pub proposals : List (ℕ × Proposal)
  pub failure : Option Message
  pub content : Option Text
  pub printed : Text

-- agno and the MCP gateway.
pub record Agno : Type 0 where
  pub toolkit : Toolkit
  pub upper : Text → Text
  pub shown : Message → Text
  -- The exception of opening a session that is limited to these codes, if it raises.
  pub open_session : List Text → Option Failure
  pub stream_agent : AgentSpec → Text → AgnoRun
  pub stream_team : TeamSpec → Text → AgnoRun
  pub stream_root : RootSpec → Text → AgnoRun
  pub run_agent : AgentSpec → Text → AgnoAnswer
  pub run_team : TeamSpec → Text → AgnoAnswer
  pub run_root : RootSpec → Text → AgnoAnswer

abbrev pub propose_all : (Text → Text) → List (ℕ × Proposal) → List Collector → List Collector
propose_all upper [] cs = cs
propose_all upper ((k, p) ∷ ps) cs = propose_all upper ps (propose_to upper k p cs)

-- `response.content`, or `str(response)` if that is None
abbrev pub answer_text : AgnoAnswer → Text
answer_text r = elim r.content [ none ↦ r.printed | some t ↦ t ]

abbrev pub started : {A B : Type 0} → (A → B) → Result A × EngineState → Result B × EngineState
started f (r, e) = (then_ok r (λ a. ok (f a)), e)

abbrev pub unless_refused :
    {A : Type 0} → Option Failure → EngineState → Result A × EngineState → Result A × EngineState
unless_refused (some x) e r = (err x, e)
unless_refused none e r = r

module _ (g : Agno) (d : Db) (req : Request) where
  -- `async with mcp_session`, and the agent.
  unfoldable pub open_agent : ResolvedRuntimeContext → EngineState → Result AgentSpec × EngineState
  unfolding build_agno_agent
  open_agent ctx e =
      unless_refused (g.open_session ctx.effective_capabilities) e
        (build_agno_agent g.toolkit ctx req d e)

  -- The loop over the members, on one exit stack.
  unfoldable pub open_members :
      List ResolvedRuntimeContext → EngineState → Result (List AgentSpec) × EngineState
  unfolding open_agent
  open_members [] e = (ok [], e)
  open_members (c ∷ cs) e =
      let (r, e₁) = open_agent c e in
      let (rs, e₂) = open_members cs e₁ in
      elim r [ err x ↦ (err x, e₁) | ok a ↦ (then_ok rs (λ as'. ok (a ∷ as')), e₂) ]

  -- The model of a team's leader is the default of the AgentOS.
  unfoldable pub leader_model : AgentOs → Result ModelClient
  unfolding resolve_registry_entry build_agno_model
  leader_model os =
      then_ok (resolve_registry_entry none os.default_model_id d)
        λ entry. build_agno_model g.toolkit.lower g.toolkit.settings entry none

  unfoldable pub build_agno_team : ResolvedTeamContext → EngineState → Result TeamSpec × EngineState
  unfolding open_members leader_model
  build_agno_team ctx e =
      let (r, e₁) = open_members ctx.member_contexts e in
      (
        then_ok r λ members. then_ok (leader_model ctx.agent_os) λ model. ok (record {
          members = members;
          model = model;
          team_id = g.toolkit.show_id ctx.team.id;
          name = ctx.team.name;
          instructions = ctx.team_prompt;
        }),
        e₁,
      )

  -- The list comprehension over the teams.
  unfoldable pub build_teams :
      List ResolvedTeamContext → EngineState → Result (List TeamSpec) × EngineState
  unfolding build_agno_team
  build_teams [] e = (ok [], e)
  build_teams (c ∷ cs) e =
      let (r, e₁) = build_agno_team c e in
      let (rs, e₂) = build_teams cs e₁ in
      elim r [ err x ↦ (err x, e₁) | ok t ↦ (then_ok rs (λ ts. ok (t ∷ ts)), e₂) ]

  abbrev pub root_id : AgentOs → Text
  root_id os = codes "root-" ++ g.toolkit.show_id os.id

  unfoldable pub build_agno_root_team :
      ResolvedRootContext → EngineState → Result RootSpec × EngineState
  unfolding build_teams leader_model
  build_agno_root_team ctx e =
      let (r, e₁) = build_teams ctx.team_contexts e in
      (
        then_ok r λ members. then_ok (leader_model ctx.agent_os) λ model. ok (record {
          members = members;
          model = model;
          team_id = root_id ctx.agent_os;
          instructions = ctx.root_prompt;
        }),
        e₁,
      )

  unfoldable pub run_stream : ResolvedRuntimeContext → EngineState → Streamed × EngineState
  unfolding open_agent agent_event stream_run
  run_stream ctx =
      stream_run g.upper g.shown agent_event
        (λ e. started (λ a. g.stream_agent a req.message) (open_agent ctx e)) req.session_id

  unfoldable pub run_team_stream : ResolvedTeamContext → EngineState → Streamed × EngineState
  unfolding build_agno_team team_event stream_run
  run_team_stream ctx =
      stream_run g.upper g.shown (team_event (g.toolkit.show_id ctx.team.id))
        (λ e. started (λ t. g.stream_team t req.message) (build_agno_team ctx e)) req.session_id

  unfoldable pub run_root_stream : ResolvedRootContext → EngineState → Streamed × EngineState
  unfolding build_agno_root_team team_event stream_run
  run_root_stream ctx =
      stream_run g.upper g.shown (team_event (root_id ctx.agent_os))
        (λ e. started (λ t. g.stream_root t req.message) (build_agno_root_team ctx e))
        req.session_id

  -- What the three runs that do not stream share, the plan and the text.
  unfoldable pub finish_run : Result AgnoAnswer × EngineState → Result Text × EngineState
  unfolding aggregate_ui_action_plan dedupe_self_concatenated
  finish_run (err x, e) = (err (raised ErrorClass.runtime_execution_failed x.message), e)
  finish_run (ok r, e) =
      let cs = propose_all g.upper r.proposals e.collectors in
      elim r.failure [
        | some m ↦
            (err (raised ErrorClass.runtime_execution_failed m), record e { collectors = cs })
        | none ↦ (
          ok (dedupe_self_concatenated (answer_text r)),
          record {
            collectors = cs;
            last_ui_action_plan = some (aggregate_ui_action_plan (some req.session_id) cs);
          },
        )
      ]

  unfoldable pub run : ResolvedRuntimeContext → EngineState → Result Text × EngineState
  unfolding open_agent finish_run
  run ctx e =
      finish_run
        (started (λ a. g.run_agent a req.message) (open_agent ctx (reset_ui_action_collectors e)))

  unfoldable pub run_team : ResolvedTeamContext → EngineState → Result Text × EngineState
  unfolding build_agno_team finish_run
  run_team ctx e =
      finish_run (
        started (λ t. g.run_team t req.message)
          (build_agno_team ctx (reset_ui_action_collectors e)))

  unfoldable pub run_root : ResolvedRootContext → EngineState → Result Text × EngineState
  unfolding build_agno_root_team finish_run
  run_root ctx e = finish_run (
      started (λ t. g.run_root t req.message)
        (build_agno_root_team ctx (reset_ui_action_collectors e)))
