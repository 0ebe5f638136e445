-- ===== src/Engine/Fixtures.antt =====
-- An agent with a workflow skill and a user-interface skill, its team, and answers of agno's.
use aiplatform.Shared.{ℕ, true, false, Option, none, some, [], ◌∷◌, Text, String, codes}
use aiplatform.Exec.{Result}
use aiplatform.Models.{
  AgentOs, ModelRegistry, Skill, SkillType, Workflow, Json, Fields, CapabilityAssignment,
}
use aiplatform.State.{Db, World}
use aiplatform.State.Examples.{empty_db, all_on, echo}
use aiplatform.Chat.Examples.{enterprise, sales, seller}
use aiplatform.Memory.ModelChoice.{ModelClient, ModelClass}
use aiplatform.Knowledge.Examples.{library}
use aiplatform.Workflow.Trigger.{CallChain}
use aiplatform.Engine.Actions.{EngineState, Proposal}
use aiplatform.Engine.Metrics.{AgnoMetrics, MetricValue}
use aiplatform.Engine.Streams.{AgnoRun, Act, surfaced, proposed}
use aiplatform.Engine.Contexts.{ResolvedRuntimeContext, ResolvedTeamContext}
use aiplatform.Engine.Assembly.{AgentSpec}
use aiplatform.Engine.Instructions.{with_memory_section}
use aiplatform.Engine.Tools.{Toolkit, Request, TriggerTool, tools_of}
use aiplatform.Engine.Runs.{Agno, AgnoAnswer, TeamSpec}
use aiplatform.Engine.Triggers
use aiplatform.Engine.Triggers.{IsStopped, refusal, trigger_workflow-IsContained}

abbrev pub gpt : ModelRegistry
gpt = record {
  id = 9;
  provider = codes "openai";
  model = codes "gpt";
  temperature = 700;
  max_tokens = 4096;
  base_url = none;
  api_key = none;
  extra_client_params = none;
  enabled = true;
  deleted = false;
  cost_per_1k_input_tokens = none;
  cost_per_1k_output_tokens = none;
}

abbrev pub client : ModelClient
client = record {
  model_class = ModelClass.open_ai_chat;
  id = codes "gpt";
  name = none;
  temperature = 700;
  max_tokens = 4096;
  api_key = none;
  base_url = none;
  params = some Fields.no_fields;
}

abbrev pub os : AgentOs
os = record enterprise { default_model_id = some 9 }

abbrev pub skill_of : ℕ → SkillType → Skill
skill_of id type = record {
  id = id;
  code = id ∷ [];
  skill_type = type;
  config =
      some (Fields.field (codes "workflowCode") (Json.string (codes "leave")) Fields.no_fields);
  deleted = false;
}

abbrev pub leave : Workflow
leave = record {
  id = 40;
  agent_os_id = 7;
  code = codes "leave";
  name = codes "Leave";
  team_id = none;
  enabled = true;
  deleted = false;
}

abbrev pub given : ℕ → String → CapabilityAssignment
given id code = record { owner_id = id; capability_code = codes code }

abbrev pub office : Db
office = record empty_db {
  agent_oses = os ∷ [];
  teams = sales ∷ [];
  agents = seller ∷ [];
  model_registry = gpt ∷ [];
  agent_os_capabilities = given 7 "mail" ∷ given 7 "pay" ∷ [];
  team_capabilities = given 6 "mail" ∷ [];
  agent_capabilities = given 5 "mail" ∷ given 5 "pay" ∷ [];
  skills = skill_of 20 SkillType.workflow ∷ skill_of 21 SkillType.ui ∷ [];
  agent_skills =
      (record { agent_id = 5; skill_id = 20 }) ∷ (record { agent_id = 5; skill_id = 21 }) ∷ [];
  workflows = leave ∷ [];
}

abbrev pub toolkit : Toolkit
toolkit = record {
  platform = library Json.null;
  settings = all_on;
  feature_business_object_registry = true;
  lower = λ t. t;
  parse_uuid = λ t. none;
  show_id = λ n. n ∷ [];
  read_int = λ v. some 1;
}

abbrev pub ask : Request
ask = record {
  message = codes "I am ill";
  session_id = codes "s";
  user_id = some (codes "alice");
  attachments = [];
}

abbrev pub delta : String → Option Text → Act
delta t team = surfaced (record {
  event = some (codes "TeamRunResponseContent");
  class_name = [];
  content = some (codes t);
  team_id = team;
  tools = [];
})

-- A sub-team's text, the leader's, and the usage of the whole.
abbrev pub team_talk : AgnoRun
team_talk = record {
  acts = delta "draft" (some (99 ∷ [])) ∷ delta "Get well." (some (6 ∷ [])) ∷ [];
  failure = none;
  run_response = some (
      AgnoMetrics.of_dict (
        (codes "input_tokens", MetricValue.values (some 3 ∷ none ∷ some 4 ∷ []))
        ∷ (codes "output_tokens", MetricValue.scalar 5)
        ∷ []));
}

abbrev pub fill : String → Proposal
fill type = record {
  action_type = codes type;
  target = codes "days";
  value = some (codes "3");
  reason = none;
  business_meaning = none;
  confidence = 900;
}

abbrev pub agent_talk : AgnoRun
agent_talk = record {
  acts =
      proposed 0 (fill "FILL_FORM")
      ∷ proposed 0 (fill "JUMP")
      ∷ proposed 0 (fill "CLICK_BUTTON")
      ∷ [];
  failure = none;
  run_response = none;
}

abbrev pub quiet : AgnoAnswer
quiet = record { proposals = []; failure = none; content = none; printed = codes "-" }

abbrev pub agno : Agno
agno = record {
  toolkit = toolkit;
  upper = λ t. t;
  shown = λ m. codes "error";
  open_session = λ cs. none;
  stream_agent = λ a t. agent_talk;
  stream_team = λ s t. team_talk;
  stream_root = λ s t. team_talk;
  run_agent = λ a t. quiet;
  run_team = λ s t. quiet;
  run_root = λ s t. quiet;
}

abbrev pub idle : EngineState
idle = record { collectors = []; last_ui_action_plan = none }

abbrev pub ready : EngineState
ready = record { collectors = (record { actions = [] }) ∷ []; last_ui_action_plan = none }

abbrev pub context : ResolvedRuntimeContext
context = record {
  agent_os = os;
  team = sales;
  agent = seller;
  final_prompt = codes "You are Seller, an agent within team Sales.";
  effective_capabilities = codes "mail" ∷ [];
}

abbrev pub trigger_leave : TriggerTool
trigger_leave = record {
  workflow_id = 40;
  workflow_code = codes "leave";
  max_depth = 1;
  session_id = codes "s";
  user_id = some (codes "alice");
}

abbrev pub nested : CallChain
nested = record { depth = 1; visited = codes "other" ∷ [] }

abbrev pub call_trigger : TriggerTool → Text → CallChain → World → Result Text × World
call_trigger = Triggers.trigger_workflow echo agno.shown toolkit.parse_uuid

abbrev pub spec : AgentSpec
spec = record {
  model = client;
  name = codes "Seller";
  agent_id = 5;
  instructions = with_memory_section ask.user_id context.final_prompt;
  tools = tools_of toolkit context ask 0 office;
  enable_user_memories = true;
}

abbrev pub team : ResolvedTeamContext
team = record {
  agent_os = os;
  team = sales;
  team_prompt = codes "Work together.";
  member_contexts = context ∷ [];
}

abbrev pub team_spec : TeamSpec
team_spec = record {
  members = spec ∷ [];
  model = client;
  team_id = 6 ∷ [];
  name = codes "Sales";
  instructions = codes "Work together.";
}
