-- ===== src/Capability/Service.antt =====
-- app/services/capability_service.py: `CapabilityService.resolve`.
use aiplatform.Shared.{
  ℕ, Bool, not, ◌&&◌, Option, none, some, List, Text, ◌==◌, first_where, distinct, union,
  intersection, sorted,
}
use aiplatform.Errors.{Failure, about, raised, ErrorClass}
use aiplatform.Exec.{Result, ok, err}
use aiplatform.Models.{AgentOs, Team, Agent}
use aiplatform.State.{Db}
use aiplatform.Capability.Assignments.{
  get_agent_os_capabilities, get_team_capabilities, get_agent_capabilities,
  get_capability_codes_for_agent,
}

pub record CapabilityResolutionResult : Type 0 where
  pub agent_os_capabilities : List Text
  pub team_capabilities : List Text
  pub agent_capabilities : List Text
  pub effective_capabilities : List Text

-- `BaseRepository.get`
abbrev pub agent_os_row : ℕ → Db → Option AgentOs
agent_os_row id d = first_where (λ a. a.id == id && not a.deleted) d.agent_oses

abbrev pub team_row : ℕ → Db → Option Team
team_row id d = first_where (λ t. t.id == id && not t.deleted) d.teams

abbrev pub agent_row : ℕ → Db → Option Agent
agent_row id d = first_where (λ a. a.id == id && not a.deleted) d.agents

-- `x is None or not x.enabled`
abbrev pub is_off : {A : Type 0} → (A → Bool) → Option A → Bool
is_off enabled none = Bool.true
is_off enabled (some x) = not (enabled x)

abbrev pub unavailable : ℕ → Failure
unavailable id = raised ErrorClass.capability_resolution_failed (about "not found or disabled" id)

-- The effective set of an agent.
unfoldable pub effective_of : ℕ → ℕ → ℕ → Db → CapabilityResolutionResult
unfolding distinct sorted get_agent_os_capabilities get_team_capabilities get_agent_capabilities
    get_capability_codes_for_agent
effective_of agent_os_id team_id agent_id d =
    let agent_os_caps = distinct (get_agent_os_capabilities agent_os_id d) in
    let team_caps = distinct (get_team_capabilities team_id d) in
    let agent_caps =
      union (distinct (get_agent_capabilities agent_id d))
        (get_capability_codes_for_agent agent_id d) in
    record {
      agent_os_capabilities = sorted agent_os_caps;
      team_capabilities = sorted team_caps;
      agent_capabilities = sorted agent_caps;
      effective_capabilities =
          sorted (intersection (intersection agent_os_caps team_caps) agent_caps);
    }

unfoldable pub resolve : ℕ → ℕ → ℕ → Db → Result CapabilityResolutionResult
unfolding effective_of
resolve agent_os_id team_id agent_id d =
    elim (is_off (λ a. a.enabled) (agent_os_row agent_os_id d)) [
      | Bool.true ↦ err (unavailable agent_os_id)
      | Bool.false ↦ elim (is_off (λ t. t.enabled) (team_row team_id d)) [
        | Bool.true ↦ err (unavailable team_id)
        | Bool.false ↦ elim (is_off (λ a. a.enabled) (agent_row agent_id d)) [
          | Bool.true ↦ err (unavailable agent_id)
          | Bool.false ↦ ok (effective_of agent_os_id team_id agent_id d)
        ]
      ]
    ]
