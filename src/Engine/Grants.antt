-- ===== src/Engine/Grants.antt =====
-- Which tools an agent may be given, and that each builder of tools gives no other.
use aiplatform.Shared.{
  ℕ, ◌≡◌, refl, sym, Bool, true, false, Option, none, some, List, [], ◌∷◌, select, All, All-Member,
  All-of_Member, All-append, Member-select, Bool-cases, Option-cases, inl, inr, codes,
  if◌then◌else◌,
}
use mathlib.Core.Path.{subst}
use aiplatform.Models.{Skill, SkillType, Workflow, Fields, Json}
use aiplatform.Webhook.Input.{get_field}
use aiplatform.Knowledge.Service.{build_source_lookup_tool}
use aiplatform.Engine.Given.{
  IsSkillOf, listed-IsSkillOf, workflow_type, ui_type, skill_with, IsConfigured,
  lookup-IsConfigured, known_user-some,
}
use aiplatform.State.{Db}
use aiplatform.Capability.Effective.{Effective}
use aiplatform.Capability.Skills.{list_skills_for_agent}
use aiplatform.Workflow.Registry.{workflow_by_code}
use aiplatform.Knowledge.Platform.{KnowledgeSkillConfig}
use aiplatform.Engine.Tools.{
  is_ui, is_marked, all_triggers, build_remember_tool, source_tool, Tool, mcp_tools,
  get_document_source, lookup_business_object, validate_business_object, propose_ui_action,
  trigger_workflow, remember_fact, TriggerTool, Toolkit, Request, is_enabled_for_agent,
  has_action_tool, is_workflow, known_user, build_trigger_tools, tools_of_skills, trigger_tool_of,
  tool_for, tool_of, skill_config, WorkflowSkillConfig,
}

-- What the tools are checked against: the identifiers of the agent and of those above it.
module _ (k : Toolkit) (req : Request) (d : Db) (os team agent : ℕ) where
  -- The tool triggers an enabled workflow of the agent's AgentOS that one of the agent's workflow
  -- skills names.
  abbrev pub IsNamed : TriggerTool → Type 0
  IsNamed t =
      (s : Skill) × IsSkillOf agent d s
      × (s.skill_type ≡ SkillType.workflow)
      × (c : WorkflowSkillConfig) × (skill_config k.read_int s.config ≡ some c)
      × (t.max_depth ≡ c.max_trigger_depth)
      × (w : Workflow) × (workflow_by_code os c.workflow_code d ≡ some w)
      × (w.enabled ≡ true)
      × (t.workflow_id ≡ w.id)

  -- The feature of business objects is on, and a skill of the agent's has the mark.
  abbrev pub IsRegistered : Type 0
  IsRegistered =
      (k.feature_business_object_registry ≡ true)
      × (s : Skill) × IsSkillOf agent d s
      × (f : Fields) × (s.config ≡ some f)
      × (v : Json) × (get_field (codes "businessObjectLookup") f ≡ some v)
      × (k.platform.is_true v ≡ true)

  -- An MCP session reaches only codes that are assigned on all three levels; a trigger is named by
  -- a skill; a document's source is asked of platforms of the agent's knowledge skills; the business
  -- object tools need their flag and a skill of the agent's that is marked for them, and the action
  -- tool its flag and a UI skill of the agent's; a fact is remembered for the user of the request.
  abbrev pub IsAllowed : Tool → Type 0
  IsAllowed (mcp_tools codes) = All (λ c. Effective os team agent d c) codes
  IsAllowed (get_document_source cs) = All (IsConfigured k.platform agent d) cs
  IsAllowed lookup_business_object = IsRegistered
  IsAllowed validate_business_object = IsRegistered
  IsAllowed (propose_ui_action n) =
      (k.settings.feature_ui_skills ≡ true)
      × (s : Skill) × IsSkillOf agent d s
      × (s.skill_type ≡ SkillType.ui)
  IsAllowed (trigger_workflow t) = IsNamed t
  IsAllowed (remember_fact id user) = (id ≡ agent) × (req.user_id ≡ some user)

  abbrev FromSkill : Skill → Type 0
  FromSkill s = IsSkillOf agent d s × (s.skill_type ≡ SkillType.workflow)

  tool_for-IsNamed :
      (s : Skill) (c : WorkflowSkillConfig)
      → FromSkill s
      → skill_config k.read_int s.config ≡ some c
      → All IsNamed (tool_for c req (workflow_by_code os c.workflow_code d))
  tool_for-IsNamed s c (h, t) e = elim (Option-cases (workflow_by_code os c.workflow_code d)) [
    | inl f ↦ subst (λ (o : Option Workflow). All IsNamed (tool_for c req o)) (sym f) tt
    | inr (w, f) ↦
        subst (λ (o : Option Workflow). All IsNamed (tool_for c req o)) (sym f)
          (elim (Bool-cases w.enabled) [
            | inl g ↦
                let q : tool_for c req (some w) ≡ tool_of req c w ∷ [] = rw g refl in
                subst (All IsNamed) (sym q) ((s, h, t, c, e, refl, w, f, g, refl), tt)
            | inr g ↦
                let q : tool_for c req (some w) ≡ [] = rw g refl in subst (All IsNamed) (sym q) tt
          ])
  ]

  trigger_tool_of-IsNamed :
      (s : Skill) → FromSkill s → All IsNamed (trigger_tool_of k.read_int os req d s)
  unfolding trigger_tool_of
  trigger_tool_of-IsNamed s (h, t) = elim (Option-cases (skill_config k.read_int s.config)) [
    | inl e ↦
        let q : trigger_tool_of k.read_int os req d s ≡ [] = rw (trigger_tool_of, e) refl in
        subst (All IsNamed) (sym q) tt
    | inr (c, e) ↦
        let q : trigger_tool_of k.read_int os req d s
            ≡ tool_for c req (workflow_by_code os c.workflow_code d) =
          rw (trigger_tool_of, e) refl in
        subst (All IsNamed) (sym q) (tool_for-IsNamed s c (h, t) e)
  ]

  tools_of_skills-IsNamed :
      (ss : List Skill) → All FromSkill ss → All IsNamed (tools_of_skills k.read_int os req d ss)
  unfolding tools_of_skills
  tools_of_skills-IsNamed [] h = tt
  tools_of_skills-IsNamed (s ∷ ss) (h, hs) =
      All-append IsNamed (trigger_tool_of k.read_int os req d s)
        (tools_of_skills k.read_int os req d ss) (trigger_tool_of-IsNamed s h)
        (tools_of_skills-IsNamed ss hs)

  workflow_skills-FromSkill :
      All FromSkill (select (λ s. is_workflow s.skill_type) (list_skills_for_agent agent d))
  unfolding list_skills_for_agent
  workflow_skills-FromSkill =
      All-of_Member FromSkill
        (select (λ s. is_workflow s.skill_type) (list_skills_for_agent agent d))
        λ s m.
          let (n, t) =
            (Member-select (λ (x : Skill). is_workflow x.skill_type) s
                (list_skills_for_agent agent d)).0
              m in
          (
            All-Member (IsSkillOf agent d) s (list_skills_for_agent agent d) n
                (listed-IsSkillOf agent d),
            workflow_type s.skill_type t,
          )

  all_triggers-IsAllowed :
      (ts : List TriggerTool) → All IsNamed ts → All IsAllowed (all_triggers ts)
  all_triggers-IsAllowed [] h = tt
  all_triggers-IsAllowed (t ∷ ts) (h, hs) = (h, all_triggers-IsAllowed ts hs)

  pub triggers-IsAllowed :
      All IsAllowed (all_triggers (build_trigger_tools k.read_int agent os req d))
  unfolding build_trigger_tools
  triggers-IsAllowed =
      all_triggers-IsAllowed _ (tools_of_skills-IsNamed _ workflow_skills-FromSkill)

  pub remember-IsAllowed : All IsAllowed (build_remember_tool agent req.user_id)
  unfolding build_remember_tool
  remember-IsAllowed = elim (Option-cases (known_user req.user_id)) [
    | inl e ↦
        let q : build_remember_tool agent req.user_id ≡ [] = rw (build_remember_tool, e) refl in
        subst (All IsAllowed) (sym q) tt
    | inr (u, e) ↦
        let q : build_remember_tool agent req.user_id ≡ remember_fact agent u ∷ [] =
          rw (build_remember_tool, e) refl in
        subst (All IsAllowed) (sym q) ((refl, known_user-some req.user_id u e), tt)
  ]

  source-IsAllowed-of :
      (o : Option (List KnowledgeSkillConfig))
      → build_source_lookup_tool k.platform agent d ≡ o
      → All IsAllowed (source_tool o)
  source-IsAllowed-of none e = tt
  source-IsAllowed-of (some cs) e = (lookup-IsConfigured k.platform agent d cs e, tt)

  pub source-IsAllowed : All IsAllowed (source_tool (build_source_lookup_tool k.platform agent d))
  source-IsAllowed = source-IsAllowed-of (build_source_lookup_tool k.platform agent d) refl

  marked :
      (o : Option Fields)
      → is_marked k.platform.is_true o ≡ true
      → (f : Fields) × (o ≡ some f)
        × (v : Json) × (get_field (codes "businessObjectLookup") f ≡ some v)
        × (k.platform.is_true v ≡ true)
  marked none h = absurd (cc h)
  marked (some f) h = elim (Option-cases (get_field (codes "businessObjectLookup") f)) [
    | inl e ↦ absurd (cc (h, e))
    | inr (v, e) ↦ (f, refl, v, e, rw (e, is_marked) at h)
  ]

  pub enabled-IsRegistered : is_enabled_for_agent k agent d ≡ true → IsRegistered
  unfolding is_enabled_for_agent
  enabled-IsRegistered h = elim (Bool-cases k.feature_business_object_registry) [
    | inr e ↦ absurd (cc (h, e))
    | inl e ↦
        let (s, n, m) =
          skill_with agent d (λ x. is_marked k.platform.is_true x.config) (rw e at h) in
        let (f, c, v, g, t) = marked s.config m in (e, s, n, f, c, v, g, t)
  ]

  pub action_tool_granted :
      has_action_tool k.settings agent d ≡ true
      → (k.settings.feature_ui_skills ≡ true)
        × (s : Skill) × IsSkillOf agent d s
        × (s.skill_type ≡ SkillType.ui)
  unfolding has_action_tool
  action_tool_granted h = elim (Bool-cases k.settings.feature_ui_skills) [
    | inr e ↦ absurd (cc (h, e))
    | inl e ↦
        let (s, n, m) = skill_with agent d (λ x. is_ui x.skill_type) (rw e at h) in
        (e, s, n, ui_type s.skill_type m)
  ]

  -- Tools that a test brings.
  pub tested-IsAllowed :
      (b : Bool) (ts : List Tool)
      → (b ≡ true → All IsAllowed ts)
      → All IsAllowed (if b then ts else [])
  tested-IsAllowed true ts h = h refl
  tested-IsAllowed false ts h = tt
