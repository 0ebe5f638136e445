-- ===== src/Chat/Dispatch.antt =====
-- app/agno_runtime/engine.py, `resolve_dispatch_context`: which team, or teams, a chat request is
-- for. The prompt texts and the capabilities that a context carries for agno are left out: they
-- do not decide which rows it holds.
use aiplatform.Shared.{
  ℕ, ◌&&◌, not, Option, none, some, List, [], ◌∷◌, Text, ◌==◌, same_text, first_where, select, page,
  is_filled, if◌then◌else◌,
}
use aiplatform.Errors.{text, about, raised, ErrorClass}
use aiplatform.Exec.{Result, ok, err}
use aiplatform.Models.{AgentOs, Team, Agent}
use aiplatform.State.{Db}

pub record TeamContext : Type 0 where
  pub agent_os : AgentOs
  pub team : Team
  pub members : List Agent

-- `ResolvedRuntimeContext`, `ResolvedTeamContext` and `ResolvedRootContext`
pub data DispatchContext : Type 0 where
  runtime_context : AgentOs → Team → Agent → DispatchContext
  team_context : TeamContext → DispatchContext
  root_context : AgentOs → List TeamContext → DispatchContext

-- app/repositories/hierarchy_repository.py
unfoldable pub get_agent_os_by_code : Text → Db → Option AgentOs
get_agent_os_by_code code d = first_where (λ a. same_text a.code code && not a.deleted) d.agent_oses

unfoldable pub get_team_by_code : ℕ → Text → Db → Option Team
get_team_by_code os code d =
    first_where (λ t. t.agent_os_id == os && (same_text t.code code && not t.deleted)) d.teams

-- `list(..., limit=200)`
abbrev pub member_rows : ℕ → Db → List Agent
member_rows team d =
    select (λ a. a.enabled) (page 200 (select (λ a. a.team_id == team && not a.deleted) d.agents))

abbrev pub team_rows : ℕ → Db → List Team
team_rows os d =
    select (λ t. t.enabled) (page 200 (select (λ t. t.agent_os_id == os && not t.deleted) d.teams))

unfoldable pub with_members : AgentOs → Team → List Agent → Result TeamContext
with_members os t [] =
    err
      (raised ErrorClass.runtime_execution_failed (about "Team has no enabled member agents" t.id))
with_members os t (a ∷ as') = ok (record { agent_os = os; team = t; members = a ∷ as' })

unfoldable pub build_team_context : AgentOs → Team → Db → Result TeamContext
unfolding with_members
build_team_context os t d = with_members os t (member_rows t.id d)

abbrev then_context : Result TeamContext → Result (List TeamContext) → Result (List TeamContext)
then_context (err e) rest = err e
then_context (ok c) (err e) = err e
then_context (ok c) (ok cs) = ok (c ∷ cs)

-- The list comprehension of `resolve_root_context`.
unfoldable pub build_team_contexts : AgentOs → List Team → Db → Result (List TeamContext)
unfolding build_team_context
build_team_contexts os [] d = ok []
build_team_contexts os (t ∷ ts) d =
    then_context (build_team_context os t d) (build_team_contexts os ts d)

abbrev pub enabled_os : Text → Db → Option AgentOs
enabled_os code d = elim (get_agent_os_by_code code d) [
  | none ↦ none
  | some os ↦ if os.enabled then some os else none
]

abbrev pub enabled_team : ℕ → Text → Db → Option Team
enabled_team os code d = elim (get_team_by_code os code d) [
  | none ↦ none
  | some t ↦ if t.enabled then some t else none
]

abbrev as_team : Result TeamContext → Result DispatchContext
as_team (ok c) = ok (team_context c)
as_team (err e) = err e

-- The body of `resolve_team_context_by_code`.
abbrev pub team_context_by_code : Text → Text → Db → Result TeamContext
team_context_by_code os_code team_code d = elim (enabled_os os_code d) [
  | none ↦ err (raised ErrorClass.runtime_execution_failed (text "AgentOS not found or disabled"))
  | some os ↦ elim (enabled_team os.id team_code d) [
    | none ↦ err (raised ErrorClass.runtime_execution_failed (text "Team not found or disabled"))
    | some t ↦ build_team_context os t d
  ]
]

unfoldable pub resolve_team_context_by_code : Text → Text → Db → Result DispatchContext
unfolding build_team_context get_agent_os_by_code get_team_by_code
resolve_team_context_by_code os_code team_code d =
    as_team (team_context_by_code os_code team_code d)

abbrev as_root : AgentOs → Result (List TeamContext) → Result DispatchContext
as_root os (ok cs) = ok (root_context os cs)
as_root os (err e) = err e

unfoldable pub resolve_root_context : Text → Db → Result DispatchContext
unfolding build_team_contexts get_agent_os_by_code
resolve_root_context os_code d = elim (enabled_os os_code d) [
  | none ↦ err (raised ErrorClass.runtime_execution_failed (text "AgentOS not found or disabled"))
  | some os ↦
      if is_filled (team_rows os.id d)
      then as_root os (build_team_contexts os (team_rows os.id d) d)
      else err
          (raised ErrorClass.runtime_execution_failed (about "AgentOS has no enabled teams" os.id))
]

-- `if team_code:`, an empty code is none.
unfoldable pub resolve_dispatch_context : Text → Option Text → Db → Result DispatchContext
unfolding resolve_root_context resolve_team_context_by_code
resolve_dispatch_context os_code none d = resolve_root_context os_code d
resolve_dispatch_context os_code (some []) d = resolve_root_context os_code d
resolve_dispatch_context os_code (some (c ∷ cs)) d = resolve_team_context_by_code os_code (c ∷ cs) d
