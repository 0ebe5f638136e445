-- ===== src/Plan/Targets.antt =====
-- app/agno_runtime/engine.py, `resolve_context`, and one attempt at a step of a plan: the target
-- is looked up by its codes and run. agno's run is the parameter `Outside`.
use aiplatform.Shared.{
  ℕ, ◌&&◌, not, Option, none, some, [], ◌∷◌, Text, ◌==◌, same_text, first_where, if◌then◌else◌,
}
use aiplatform.Errors.{text, raised, ErrorClass}
use aiplatform.Exec.{Result, ok, err, Exec, gets, lift, ◌>>=◌}
use aiplatform.Models.{Agent, PlanStep, PlanStepTargetType}
use aiplatform.State.{Db, World, Outside, Reply, answered, failed, calling, after_tools}
use aiplatform.Chat.Dispatch.{
  TeamContext, enabled_os, enabled_team, team_context_by_code, get_agent_os_by_code,
  get_team_by_code, build_team_context,
}

-- app/repositories/hierarchy_repository.py
abbrev pub agent_in_team : ℕ → Text → Db → Option Agent
agent_in_team team code d =
    first_where (λ a. a.team_id == team && (same_text a.code code && not a.deleted)) d.agents

abbrev pub first_enabled_in_team : ℕ → Db → Option Agent
first_enabled_in_team team d =
    first_where (λ a. a.team_id == team && (a.enabled && not a.deleted)) d.agents

-- `if agent_code:`, an empty code is none.
abbrev pub agent_for : ℕ → Option Text → Db → Option Agent
agent_for team none d = first_enabled_in_team team d
agent_for team (some []) d = first_enabled_in_team team d
agent_for team (some (c ∷ cs)) d = agent_in_team team (c ∷ cs) d

unfoldable pub enabled_agent : Option Agent → Result ℕ
enabled_agent none =
    err (raised ErrorClass.runtime_execution_failed (text "Agent not found or disabled"))
enabled_agent (some a) =
    if a.enabled
    then ok a.id
    else err (raised ErrorClass.runtime_execution_failed (text "Agent not found or disabled"))

-- The identifier of the agent, in place of the context of its rows.
unfoldable pub resolve_context : Text → Text → Option Text → Db → Result ℕ
unfolding enabled_agent get_agent_os_by_code get_team_by_code
resolve_context os_code team_code agent_code d = elim (enabled_os os_code d) [
  | none ↦ err (raised ErrorClass.runtime_execution_failed (text "AgentOS not found or disabled"))
  | some os ↦ elim (enabled_team os.id team_code d) [
    | none ↦ err (raised ErrorClass.runtime_execution_failed (text "Team not found or disabled"))
    | some t ↦ enabled_agent (agent_for t.id agent_code d)
  ]
]

-- The identifier of the team.
unfoldable pub team_id_of : Result TeamContext → Result ℕ
team_id_of (ok c) = ok c.team.id
team_id_of (err e) = err e

-- `x or ""`
abbrev pub or_empty : Option Text → Text
or_empty none = []
or_empty (some t) = t

-- The lookup of a target.
unfoldable pub resolve_kind : PlanStepTargetType → Text → Option Text → Option Text → Db → Result ℕ
unfolding resolve_context team_id_of build_team_context get_agent_os_by_code get_team_by_code
resolve_kind PlanStepTargetType.team os_code team_code agent_code d =
    team_id_of (team_context_by_code os_code (or_empty team_code) d)
resolve_kind PlanStepTargetType.agent os_code team_code agent_code d =
    resolve_context os_code (or_empty team_code) agent_code d

unfoldable pub resolve_target : PlanStep → Db → Result ℕ
unfolding resolve_kind
resolve_target s d = resolve_kind s.target_type s.agent_os_code s.team_code s.agent_code d

-- `engine.run_team` and `engine.run`
unfoldable pub reply_of : Outside → PlanStepTargetType → ℕ → ℕ → Text → Reply
reply_of o PlanStepTargetType.team n id x = o.run_team n id x
reply_of o PlanStepTargetType.agent n id x = o.run_agent n id x

-- The end of a call, with what its tools have written.
unfoldable pub receive : Outside → Reply → Exec World Text
receive o (answered y) w = (ok y, calling (after_tools o 0 w))
receive o (failed m) w =
    (err (raised ErrorClass.runtime_execution_failed m), calling (after_tools o 0 w))

unfoldable pub attempt : Outside → PlanStep → Text → Exec World Text
unfolding resolve_target reply_of receive
attempt o s x = do
  found ← gets (λ w. resolve_target s w.db)
  id ← lift found
  n ← gets (λ w. w.calls)
  receive o (reply_of o s.target_type n id x)
