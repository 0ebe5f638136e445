-- ===== src/Capability/Examples.antt =====
-- An agent with a skill, and the theorems applied to it.
use aiplatform.Shared.{
  ℕ, ◌≡◌, ◌≢◌, ◌↔◌, refl, [], ◌∷◌, codes, Member, List, distinct, sorted, arith,
}
use aiplatform.Models.{CapabilityAssignment}
use aiplatform.State.{Db, World}
use aiplatform.Chat.Examples.{shop}
use aiplatform.Capability.Assignments.{
  codes_of, replace_codes, set_agent_os_capabilities, set_team_capabilities, set_agent_capabilities,
  set_capability_codes, assign_to_agent, get_capability_codes_for_agent,
}
use aiplatform.Capability.Service.{effective_of}
use aiplatform.Capability.Effective.{replace_codes-codes_of, Effective, effective_of_iff}

-- The AgentOS allows a, b and c, the team b and c, the agent has a, and its skill gives c.
abbrev equipped_shop : World
equipped_shop = assign_to_agent 5 40 (
    set_capability_codes 40 (codes "c" ∷ []) (
      set_agent_capabilities 5 (codes "a" ∷ []) (
        set_team_capabilities 6 (codes "b" ∷ codes "c" ∷ [])
          (set_agent_os_capabilities 7 (codes "a" ∷ codes "b" ∷ codes "c" ∷ []) shop))))

abbrev equipped : Db
equipped = equipped_shop.db

only_c : (effective_of 7 6 5 equipped).effective_capabilities ≡ codes "c" ∷ []
unfolding effective_of sorted distinct get_capability_codes_for_agent set_agent_os_capabilities
    set_team_capabilities set_agent_capabilities set_capability_codes assign_to_agent
only_c = refl

effective_of_iff_example :
    Member (codes "c") (effective_of 7 6 5 equipped).effective_capabilities
    ↔ Effective 7 6 5 equipped (codes "c")
effective_of_iff_example = effective_of_iff 7 6 5 equipped (codes "c")

abbrev rows : List CapabilityAssignment
rows =
    record { owner_id = 7; capability_code = codes "a" }
    ∷ record { owner_id = 8; capability_code = codes "b" }
    ∷ []

different : ◌≢◌ {A = ℕ} 8 7
different h = omega (arith, h)

replace_codes-codes_of_example :
    (codes_of 7 (replace_codes 7 (codes "c" ∷ codes "c" ∷ []) rows)
      ≡ distinct (codes "c" ∷ codes "c" ∷ []))
    × (codes_of 8 (replace_codes 7 (codes "c" ∷ codes "c" ∷ []) rows) ≡ codes_of 8 rows)
replace_codes-codes_of_example =
    replace_codes-codes_of 7 8 (codes "c" ∷ codes "c" ∷ []) rows different
