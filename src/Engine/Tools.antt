-- ===== src/Engine/Tools.antt =====
-- app/agno_runtime/engine.py: the tools of agno's agents. app/workflowskill/service.py,
-- app/businessobjects/service.py, app/uiaction/service.py and app/agno_runtime/explicit_memory.py
-- decide which there are.
use aiplatform.Shared.{
  ℕ, Bool, true, false, ◌&&◌, leb, Option, none, some, List, [], ◌∷◌, ◌++◌, Text, codes, select,
  is_filled, if◌then◌else◌,
}
use aiplatform.Settings.{Settings}
use aiplatform.Models.{Json, Fields, Skill, SkillType, Workflow}
use aiplatform.State.{Db}
use aiplatform.Capability.Skills.{list_skills_for_agent}
use aiplatform.Workflow.Registry.{workflow_by_code}
use aiplatform.Webhook.Input.{get_field}
use aiplatform.Knowledge.Platform.{Platform, KnowledgeSkillConfig, as_fields}
use aiplatform.Knowledge.Service.{build_source_lookup_tool}
use aiplatform.Engine.Contexts.{ResolvedRuntimeContext}

-- A tool that triggers one workflow.
pub record TriggerTool : Type 0 where
  pub workflow_id : ℕ
  pub workflow_code : Text
  pub max_depth : ℕ
  pub session_id : Text
  pub user_id : Option Text

-- A tool of an agent, with what it is bound to.
pub data Tool : Type 0 where
  mcp_tools : List Text → Tool
  get_document_source : List KnowledgeSkillConfig → Tool
  lookup_business_object validate_business_object : Tool
  propose_ui_action : ℕ → Tool
  trigger_workflow : TriggerTool → Tool
  remember_fact : ℕ → Text → Tool

-- What the assembly takes from outside: Python's functions on text, pydantic's reading of an
-- integer, and the settings.
pub record Toolkit : Type 0 where
  pub platform : Platform
  pub settings : Settings
  pub feature_business_object_registry : Bool
  pub lower : Text → Text
  pub parse_uuid : Text → Option ℕ
  pub show_id : ℕ → Text
  pub read_int : Json → Option ℕ

-- What a run is for.
pub record Request : Type 0 where
  pub message : Text
  pub session_id : Text
  pub user_id : Option Text
  pub attachments : List Text

abbrev pub is_ui : SkillType → Bool
is_ui SkillType.ui = true
is_ui _ = false

abbrev pub is_workflow : SkillType → Bool
is_workflow SkillType.workflow = true
is_workflow _ = false

-- `build_action_tool(...) is not None`
unfoldable pub has_action_tool : Settings → ℕ → Db → Bool
unfolding list_skills_for_agent
has_action_tool settings agent_id d =
    settings.feature_ui_skills
    && is_filled (select (λ s. is_ui s.skill_type) (list_skills_for_agent agent_id d))

-- `isinstance(s.config, dict) and s.config.get("businessObjectLookup")`
abbrev pub is_marked : (Json → Bool) → Option Fields → Bool
is_marked is_true none = false
is_marked is_true (some c) = elim (get_field (codes "businessObjectLookup") c) [
  | none ↦ false
  | some v ↦ is_true v
]

unfoldable pub is_enabled_for_agent : Toolkit → ℕ → Db → Bool
unfolding list_skills_for_agent get_field
is_enabled_for_agent k agent_id d =
    k.feature_business_object_registry
    && is_filled
        (select (λ s. is_marked k.platform.is_true s.config) (list_skills_for_agent agent_id d))

-- app/workflowskill/models.py
pub record WorkflowSkillConfig : Type 0 where
  pub workflow_code : Text
  pub max_trigger_depth : ℕ

abbrev pub code_field : Option Json → Option Text
code_field (some (Json.string (c ∷ t))) = some (c ∷ t)
code_field _ = none

-- The default is 1, and the range 0 to 5.
abbrev pub depth_field : (Json → Option ℕ) → Option Json → Option ℕ
depth_field read_int none = some 1
depth_field read_int (some v) = elim (read_int v) [
  | none ↦ none
  | some n ↦ if leb n 5 then some n else none
]

-- `WorkflowSkillConfig.model_validate(skill.config or {})`
unfoldable pub skill_config : (Json → Option ℕ) → Option Fields → Option WorkflowSkillConfig
unfolding get_field
skill_config read_int raw = elim (code_field (get_field (codes "workflowCode") (as_fields raw))) [
  | none ↦ none
  | some code ↦ elim (depth_field read_int (get_field (codes "maxTriggerDepth") (as_fields raw))) [
    | none ↦ none
    | some n ↦ some (record { workflow_code = code; max_trigger_depth = n })
  ]
]

abbrev pub tool_of : Request → WorkflowSkillConfig → Workflow → TriggerTool
tool_of req c w = record {
  workflow_id = w.id;
  workflow_code = w.code;
  max_depth = c.max_trigger_depth;
  session_id = req.session_id;
  user_id = req.user_id;
}

abbrev pub tool_for : WorkflowSkillConfig → Request → Option Workflow → List TriggerTool
tool_for c req none = []
tool_for c req (some w) = if w.enabled then tool_of req c w ∷ [] else []

-- The tool of one skill, or none.
unfoldable pub trigger_tool_of : (Json → Option ℕ) → ℕ → Request → Db → Skill → List TriggerTool
unfolding skill_config
trigger_tool_of read_int os_id req d s = elim (skill_config read_int s.config) [
  | none ↦ []
  | some c ↦ tool_for c req (workflow_by_code os_id c.workflow_code d)
]

unfoldable pub tools_of_skills :
    (Json → Option ℕ) → ℕ → Request → Db → List Skill → List TriggerTool
unfolding trigger_tool_of
tools_of_skills read_int os_id req d [] = []
tools_of_skills read_int os_id req d (s ∷ ss) =
    trigger_tool_of read_int os_id req d s ++ tools_of_skills read_int os_id req d ss

unfoldable pub build_trigger_tools : (Json → Option ℕ) → ℕ → ℕ → Request → Db → List TriggerTool
unfolding tools_of_skills list_skills_for_agent
build_trigger_tools read_int agent_id os_id req d =
    tools_of_skills read_int os_id req d
      (select (λ s. is_workflow s.skill_type) (list_skills_for_agent agent_id d))

abbrev pub all_triggers : List TriggerTool → List Tool
all_triggers [] = []
all_triggers (t ∷ ts) = trigger_workflow t ∷ all_triggers ts

-- `if user_id:`
abbrev pub known_user : Option Text → Option Text
known_user none = none
known_user (some t) = if is_filled t then some t else none

unfoldable pub build_remember_tool : ℕ → Option Text → List Tool
build_remember_tool agent_id user_id = elim (known_user user_id) [
  | none ↦ []
  | some u ↦ remember_fact agent_id u ∷ []
]

abbrev pub source_tool : Option (List KnowledgeSkillConfig) → List Tool
source_tool none = []
source_tool (some cs) = get_document_source cs ∷ []

-- `n` is the number of collectors so far.
unfoldable pub tools_of : Toolkit → ResolvedRuntimeContext → Request → ℕ → Db → List Tool
unfolding build_source_lookup_tool is_enabled_for_agent has_action_tool build_trigger_tools
    build_remember_tool
tools_of k ctx req n d =
    mcp_tools ctx.effective_capabilities
    ∷ (source_tool (build_source_lookup_tool k.platform ctx.agent.id d)
        ++ ((if is_enabled_for_agent k ctx.agent.id d
              then lookup_business_object ∷ validate_business_object ∷ []
              else [])
            ++ ((if has_action_tool k.settings ctx.agent.id d then propose_ui_action n ∷ [] else [])
                ++ (all_triggers (build_trigger_tools k.read_int ctx.agent.id ctx.agent_os.id req d)
                    ++ build_remember_tool ctx.agent.id req.user_id))))

abbrev pub is_known : Option Text → Bool
is_known u = elim (known_user u) [ none ↦ false | some t ↦ true ]
