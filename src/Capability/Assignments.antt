-- ===== src/Capability/Assignments.antt =====
-- app/repositories/capability_repository.py and app/repositories/skill_repository.py: which
-- capability codes are assigned at the three levels and to skills.
use aiplatform.Shared.{ℕ, ◌&&◌, not, List, [], ◌∷◌, ◌++◌, map, Text, ◌==◌, select, distinct}
use aiplatform.Models.{CapabilityAssignment, AgentSkill}
use aiplatform.State.{Db, World, change}

-- `select(T.capability_code).where(T.owner == id)`
unfoldable pub codes_of : ℕ → List CapabilityAssignment → List Text
codes_of id t = map (λ a. a.capability_code) (select (λ a. a.owner_id == id) t)

abbrev pub assigned_to : ℕ → Text → CapabilityAssignment
assigned_to id code = record { owner_id = id; capability_code = code }

-- The old rows are deleted and the codes, each once, inserted.
unfoldable pub replace_codes : ℕ → List Text → List CapabilityAssignment → List CapabilityAssignment
replace_codes id codes t =
    select (λ a. not (a.owner_id == id)) t ++ map (assigned_to id) (distinct codes)

unfoldable pub get_agent_os_capabilities : ℕ → Db → List Text
unfolding codes_of
get_agent_os_capabilities id d = codes_of id d.agent_os_capabilities

unfoldable pub set_agent_os_capabilities : ℕ → List Text → World → World
unfolding replace_codes
set_agent_os_capabilities id codes =
    change λ d. record d { agent_os_capabilities = replace_codes id codes d.agent_os_capabilities }

unfoldable pub get_team_capabilities : ℕ → Db → List Text
unfolding codes_of
get_team_capabilities id d = codes_of id d.team_capabilities

unfoldable pub set_team_capabilities : ℕ → List Text → World → World
unfolding replace_codes
set_team_capabilities id codes =
    change λ d. record d { team_capabilities = replace_codes id codes d.team_capabilities }

unfoldable pub get_agent_capabilities : ℕ → Db → List Text
unfolding codes_of
get_agent_capabilities id d = codes_of id d.agent_capabilities

unfoldable pub set_agent_capabilities : ℕ → List Text → World → World
unfolding replace_codes
set_agent_capabilities id codes =
    change λ d. record d { agent_capabilities = replace_codes id codes d.agent_capabilities }

unfoldable pub get_capability_codes : ℕ → Db → List Text
unfolding codes_of
get_capability_codes id d = codes_of id d.skill_capabilities

unfoldable pub set_capability_codes : ℕ → List Text → World → World
unfolding replace_codes
set_capability_codes id codes =
    change λ d. record d { skill_capabilities = replace_codes id codes d.skill_capabilities }

unfoldable pub assign_to_agent : ℕ → ℕ → World → World
assign_to_agent agent_id skill_id = change λ d. record d {
  agent_skills = d.agent_skills ++ (record { agent_id = agent_id; skill_id = skill_id }) ∷ [];
}

unfoldable pub unassign_from_agent : ℕ → ℕ → World → World
unassign_from_agent agent_id skill_id = change λ d. record d {
  agent_skills =
      select (λ l. not (l.agent_id == agent_id && l.skill_id == skill_id)) d.agent_skills;
}

-- The join of `skill_capabilities` and the agent's rows of `agent_skills`.
unfoldable pub joined_codes : List AgentSkill → List CapabilityAssignment → List Text
unfolding codes_of
joined_codes [] t = []
joined_codes (l ∷ ls) t = codes_of l.skill_id t ++ joined_codes ls t

unfoldable pub get_capability_codes_for_agent : ℕ → Db → List Text
unfolding joined_codes
get_capability_codes_for_agent agent_id d =
    distinct
      (joined_codes (select (λ l. l.agent_id == agent_id) d.agent_skills) d.skill_capabilities)
