-- ===== src/Engine/Assembly.antt =====
-- app/agno_runtime/engine.py: `_build_agno_agent`, the arguments of agno's agents.
use aiplatform.Shared.{ℕ, Bool, true, false, List, [], ◌∷◌, ◌++◌, Text, length}
use aiplatform.Exec.{Result, ok, err}
use aiplatform.State.{Db}
use aiplatform.Memory.ModelChoice.{ModelClient, resolve_registry_entry, build_agno_model}
use aiplatform.Engine.Actions.{Collector, EngineState}
use aiplatform.Engine.Contexts.{ResolvedRuntimeContext, then_ok}
use aiplatform.Engine.Tools.{Tool, Toolkit, Request, has_action_tool, tools_of, is_known}
use aiplatform.Engine.Instructions.{resolve_instructions, with_memory_section}

-- The arguments of `AgnoAgent(...)` that differ from run to run.
pub record AgentSpec : Type 0 where
  pub model : ModelClient
  pub name : Text
  pub agent_id : ℕ
  pub instructions : Text
  pub tools : List Tool
  pub enable_user_memories : Bool

abbrev pub new_collectors : Bool → List Collector → List Collector
new_collectors true cs = cs ++ (record { actions = [] }) ∷ []
new_collectors false cs = cs

-- From the tools on.
unfoldable pub finish_agent :
    Toolkit
    → ResolvedRuntimeContext
    → Request
    → Db
    → EngineState
    → Result (ModelClient × Text)
    → Result AgentSpec × EngineState
unfolding tools_of has_action_tool with_memory_section
finish_agent k ctx req d e (err x) = (err x, e)
finish_agent k ctx req d e (ok (model, instructions)) = (
  ok (record {
    model = model;
    name = ctx.agent.name;
    agent_id = ctx.agent.id;
    instructions = with_memory_section req.user_id instructions;
    tools = tools_of k ctx req (length e.collectors) d;
    enable_user_memories = is_known req.user_id;
  }),
  record e { collectors = new_collectors (has_action_tool k.settings ctx.agent.id d) e.collectors },
)

-- The model and the instructions.
unfoldable pub prepare_agent :
    Toolkit → ResolvedRuntimeContext → Request → Db → Result (ModelClient × Text)
unfolding resolve_registry_entry build_agno_model resolve_instructions
prepare_agent k ctx req d =
    then_ok (resolve_registry_entry ctx.agent.model_id ctx.agent_os.default_model_id d) λ entry.
      then_ok (build_agno_model k.lower k.settings entry ctx.agent.temperature)
        λ model. then_ok (resolve_instructions k ctx req d) λ instructions. ok (model, instructions)

unfoldable pub build_agno_agent :
    Toolkit → ResolvedRuntimeContext → Request → Db → EngineState → Result AgentSpec × EngineState
unfolding prepare_agent finish_agent
build_agno_agent k ctx req d e = finish_agent k ctx req d e (prepare_agent k ctx req d)
