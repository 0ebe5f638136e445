-- ===== src/Capability/Skills.antt =====
-- app/repositories/skill_repository.py: the skills that an agent has.
use aiplatform.Shared.{
  ℕ, Bool, false, not, ◌&&◌, ◌||◌, List, [], ◌∷◌, ◌==◌, select, text_leb, All, Bool-cases, inl, inr,
  if◌then◌else◌,
}
use aiplatform.Models.{Skill, AgentSkill}
use aiplatform.State.{Db}

-- Is the skill joined with a row of the agent?
abbrev pub is_assigned : ℕ → ℕ → List AgentSkill → Bool
is_assigned agent_id skill_id [] = false
is_assigned agent_id skill_id (l ∷ ls) =
    (l.agent_id == agent_id && l.skill_id == skill_id) || is_assigned agent_id skill_id ls

-- `ORDER BY code`
unfoldable pub insert_skill : Skill → List Skill → List Skill
insert_skill s [] = s ∷ []
insert_skill s (t ∷ ts) =
    let rest = insert_skill s ts in if text_leb s.code t.code then s ∷ t ∷ ts else t ∷ rest

unfoldable pub order_by_code : List Skill → List Skill
unfolding insert_skill
order_by_code [] = []
order_by_code (s ∷ ss) = insert_skill s (order_by_code ss)

unfoldable pub is_skill_of : ℕ → Db → Skill → Bool
is_skill_of agent_id d s = is_assigned agent_id s.id d.agent_skills && not s.deleted

-- A skill is assigned to an agent at most once, so the join has each skill once.
unfoldable pub list_skills_for_agent : ℕ → Db → List Skill
unfolding order_by_code is_skill_of
list_skills_for_agent agent_id d = order_by_code (select (is_skill_of agent_id d) d.skills)

module _ (P : Skill → Type 0) where
  insert_skill-All : (s : Skill) (ss : List Skill) → P s → All P ss → All P (insert_skill s ss)
  unfolding insert_skill
  insert_skill-All s [] h hs = (h, tt)
  insert_skill-All s (t ∷ ts) h (k, ks) = elim (Bool-cases (text_leb s.code t.code)) [
    | inl e ↦ rw e (h, (k, ks))
    | inr e ↦ rw e (k, insert_skill-All s ts h ks)
  ]

  pub order_by_code-All : (ss : List Skill) → All P ss → All P (order_by_code ss)
  unfolding order_by_code
  order_by_code-All [] h = tt
  order_by_code-All (s ∷ ss) (h, hs) =
      insert_skill-All s (order_by_code ss) h (order_by_code-All ss hs)
