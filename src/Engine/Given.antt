-- ===== src/Engine/Given.antt =====
-- The skills that an agent has, as its tools are chosen by them.
use aiplatform.Shared.{
  ℕ, ◌≡◌, refl, Bool, true, false, Option, none, some, List, [], ◌∷◌, ◌==◌, ◌&&◌, select, All,
  All-Member, All-of_Member, Member, Member-select, Bool-cases, inl, inr, is_filled, arith, Text,
  Option-cases,
}
use mathlib.Core.Path.{subst}
use aiplatform.Models.{Skill, SkillType, AgentSkill}
use aiplatform.State.{Db}
use aiplatform.Capability.Skills.{
  list_skills_for_agent, is_skill_of, is_assigned, order_by_code-All,
}
use aiplatform.Knowledge.Platform.{Platform, KnowledgeSkillConfig, validated_config}
use aiplatform.Knowledge.Service.{
  knowledge_skills, is_knowledge, executors_of, build_source_lookup_tool,
}
use aiplatform.Engine.Tools.{is_ui, is_workflow, known_user}

-- A row of the skills that is not deleted and that is assigned to the agent.
abbrev pub IsSkillOf : ℕ → Db → Skill → Type 0
IsSkillOf agent d s =
    Member s d.skills
    × (s.deleted ≡ false)
    × (a : AgentSkill) × Member a d.agent_skills
    × (a.agent_id ≡ agent)
    × (a.skill_id ≡ s.id)

assigned-Member :
    (agent skill : ℕ) (ls : List AgentSkill)
    → is_assigned agent skill ls ≡ true
    → (a : AgentSkill) × Member a ls × (a.agent_id ≡ agent) × (a.skill_id ≡ skill)
assigned-Member agent skill [] h = absurd (cc h)
assigned-Member agent skill (l ∷ ls) h =
    elim (Bool-cases (l.agent_id == agent && l.skill_id == skill)) [
      | inl e ↦ (l, inl refl, ground (arith, e), ground (arith, e))
      | inr e ↦ let (a, m, p, q) = assigned-Member agent skill ls (rw e at h) in (a, inr m, p, q)
    ]

skill-IsSkillOf :
    (agent : ℕ) (d : Db) (s : Skill)
    → Member s d.skills
    → is_skill_of agent d s ≡ true
    → IsSkillOf agent d s
unfolding is_skill_of
skill-IsSkillOf agent d s m h = elim (Bool-cases (is_assigned agent s.id d.agent_skills)) [
  | inl e ↦
      let (a, n, p, q) = assigned-Member agent s.id d.agent_skills e in
      (m, ground (arith, e, h), a, n, p, q)
  | inr e ↦ absurd (ground (arith, e, h))
]

pub listed-IsSkillOf :
    (agent : ℕ) (d : Db) → All (IsSkillOf agent d) (list_skills_for_agent agent d)
unfolding list_skills_for_agent
listed-IsSkillOf agent d =
    order_by_code-All (IsSkillOf agent d) (select (is_skill_of agent d) d.skills) (
      All-of_Member (IsSkillOf agent d) (select (is_skill_of agent d) d.skills) λ s m.
        let (n, e) = (Member-select (is_skill_of agent d) s d.skills).0 m in
        skill-IsSkillOf agent d s n e)

pub workflow_type : (k : SkillType) → is_workflow k ≡ true → k ≡ SkillType.workflow
workflow_type SkillType.mcp h = cc
workflow_type SkillType.workflow h = refl
workflow_type SkillType.prompt h = cc
workflow_type SkillType.custom h = cc
workflow_type SkillType.knowledge h = cc
workflow_type SkillType.ui h = cc

pub ui_type : (k : SkillType) → is_ui k ≡ true → k ≡ SkillType.ui
ui_type SkillType.mcp h = cc
ui_type SkillType.workflow h = cc
ui_type SkillType.prompt h = cc
ui_type SkillType.custom h = cc
ui_type SkillType.knowledge h = cc
ui_type SkillType.ui h = refl

knowledge_type : (k : SkillType) → is_knowledge k ≡ true → k ≡ SkillType.knowledge
knowledge_type SkillType.mcp h = cc
knowledge_type SkillType.workflow h = cc
knowledge_type SkillType.prompt h = cc
knowledge_type SkillType.custom h = cc
knowledge_type SkillType.knowledge h = refl
knowledge_type SkillType.ui h = cc

filled-Member : (xs : List Skill) → is_filled xs ≡ true → (x : Skill) × Member x xs
filled-Member [] h = absurd (cc h)
filled-Member (x ∷ xs) h = (x, inl refl)

-- One of the agent's skills that passes a test.
pub skill_with :
    (agent : ℕ) (d : Db) (p : Skill → Bool)
    → is_filled (select p (list_skills_for_agent agent d)) ≡ true
    → (s : Skill) × IsSkillOf agent d s × (p s ≡ true)
skill_with agent d p h =
    let (s, m) = filled-Member (select p (list_skills_for_agent agent d)) h in
    let (n, e) = (Member-select p s (list_skills_for_agent agent d)).0 m in
    (
      s,
      All-Member (IsSkillOf agent d) s (list_skills_for_agent agent d) n (listed-IsSkillOf agent d),
      e,
    )

-- The configuration of a knowledge skill of the agent.
abbrev pub IsConfigured : Platform → ℕ → Db → KnowledgeSkillConfig → Type 0
IsConfigured p agent d c =
    (s : Skill) × IsSkillOf agent d s
    × (s.skill_type ≡ SkillType.knowledge)
    × (validated_config p s.config ≡ some c)

executors-IsConfigured :
    (p : Platform) (agent : ℕ) (d : Db) (ss : List Skill)
    → All (λ s. IsSkillOf agent d s × (s.skill_type ≡ SkillType.knowledge)) ss
    → All (IsConfigured p agent d) (executors_of p ss)
unfolding executors_of
executors-IsConfigured p agent d [] h = tt
executors-IsConfigured p agent d (s ∷ ss) (h, hs) =
    elim (Option-cases (validated_config p s.config)) [
      | inl e ↦ rw (executors_of, e) (executors-IsConfigured p agent d ss hs)
      | inr (c, e) ↦ rw (executors_of, e) ((s, h.0, h.1, e), executors-IsConfigured p agent d ss hs)
    ]

knowledge-IsSkillOf :
    (agent : ℕ) (d : Db)
    → All
        (λ s. IsSkillOf agent d s × (s.skill_type ≡ SkillType.knowledge))
        (knowledge_skills agent d)
unfolding knowledge_skills
knowledge-IsSkillOf agent d =
    All-of_Member (λ (s : Skill). IsSkillOf agent d s × (s.skill_type ≡ SkillType.knowledge)) _
      λ s m.
        let (n, e) =
          (Member-select (λ (x : Skill). is_knowledge x.skill_type) s
              (list_skills_for_agent agent d)).0
            m in
        (
          All-Member (IsSkillOf agent d) s (list_skills_for_agent agent d) n
              (listed-IsSkillOf agent d),
          knowledge_type s.skill_type e,
        )

pub lookup-IsConfigured :
    (p : Platform) (agent : ℕ) (d : Db) (cs : List KnowledgeSkillConfig)
    → build_source_lookup_tool p agent d ≡ some cs
    → All (IsConfigured p agent d) cs
unfolding build_source_lookup_tool
lookup-IsConfigured p agent d cs h =
    from (executors_of p (knowledge_skills agent d)) cs h
      (executors-IsConfigured p agent d (knowledge_skills agent d) (knowledge-IsSkillOf agent d))
  where
    from :
        (xs ys : List KnowledgeSkillConfig)
        → ◌≡◌ {A = Option (List KnowledgeSkillConfig)}
            (elim xs [ [] ↦ none | x ∷ zs ↦ some (x ∷ zs) ])
            (some ys)
        → All (IsConfigured p agent d) xs
        → All (IsConfigured p agent d) ys
    from [] ys e a = absurd (cc e)
    from (x ∷ zs) ys e a = let q : x ∷ zs ≡ ys = cc in subst (All (IsConfigured p agent d)) q a

pub known_user-some : (o : Option Text) (u : Text) → known_user o ≡ some u → o ≡ some u
known_user-some none u h = absurd (cc h)
known_user-some (some []) u h = absurd (cc h)
known_user-some (some (c ∷ t)) u h = h
