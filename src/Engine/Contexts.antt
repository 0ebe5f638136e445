-- ===== src/Engine/Contexts.antt =====
-- app/agno_runtime/engine.py: the contexts of agents, teams and AgentOSs, with the prompts and the
-- capabilities that their runs get.
use aiplatform.Shared.{
  ℕ, ◌≡◌, refl, Bool, Option, none, some, List, [], ◌∷◌, Text, is_filled, if◌then◌else◌,
}
use aiplatform.Errors.{Failure, about, text, raised, ErrorClass}
use aiplatform.Exec.{Result, ok, err}
use aiplatform.Models.{AgentOs, Team, Agent}
use aiplatform.State.{Db}
use aiplatform.Chat.Dispatch.{enabled_os, member_rows, team_rows, get_agent_os_by_code}
use aiplatform.Capability.Service.{
  CapabilityResolutionResult, agent_os_row, team_row, agent_row, resolve,
}
use aiplatform.Memory.Prompts.{compose, compose_team_only, compose_root_only}

pub record ResolvedRuntimeContext : Type 0 where
  pub agent_os : AgentOs
  pub team : Team
  pub agent : Agent
  pub final_prompt : Text
  pub effective_capabilities : List Text

pub record ResolvedTeamContext : Type 0 where
  pub agent_os : AgentOs
  pub team : Team
  pub team_prompt : Text
  pub member_contexts : List ResolvedRuntimeContext

pub record ResolvedRootContext : Type 0 where
  pub agent_os : AgentOs
  pub root_prompt : Text
  pub team_contexts : List ResolvedTeamContext

abbrev pub not_found_or_disabled : ℕ → Failure
not_found_or_disabled id =
    raised ErrorClass.runtime_execution_failed (about "not found or disabled" id)

-- `x` if it is there and enabled
abbrev pub enabled_row : {A : Type 0} → (A → Bool) → ℕ → Option A → Result A
enabled_row enabled id none = err (not_found_or_disabled id)
enabled_row enabled id (some x) = if enabled x then ok x else err (not_found_or_disabled id)

abbrev pub then_ok : {A B : Type 0} → Result A → (A → Result B) → Result B
then_ok (err e) f = err e
then_ok (ok a) f = f a

pub then_ok-ok :
    {A B : Type 0} (m : Result A) (f : A → Result B) (b : B)
    → then_ok m f ≡ ok b
    → (a : A) × (m ≡ ok a) × (f a ≡ ok b)
then_ok-ok (ok a) f b h = (a, refl, h)
then_ok-ok (err e) f b h = cc

unfoldable pub context_of :
    AgentOs → Team → Agent → Db → CapabilityResolutionResult → ResolvedRuntimeContext
unfolding compose
context_of os t a d r = record {
  agent_os = os;
  team = t;
  agent = a;
  final_prompt = compose os t a d;
  effective_capabilities = r.effective_capabilities;
}

unfoldable pub build_resolved_context : AgentOs → Team → Agent → Db → Result ResolvedRuntimeContext
unfolding context_of resolve
build_resolved_context os t a d =
    then_ok (resolve os.id t.id a.id d) λ r. ok (context_of os t a d r)

unfoldable pub resolve_context_by_id : ℕ → Db → Result ResolvedRuntimeContext
unfolding build_resolved_context
resolve_context_by_id agent_id d =
    then_ok (enabled_row (λ a. a.enabled) agent_id (agent_row agent_id d)) λ a.
      then_ok (enabled_row (λ t. t.enabled) a.team_id (team_row a.team_id d)) λ t.
        then_ok (enabled_row (λ o. o.enabled) t.agent_os_id (agent_os_row t.agent_os_id d))
          λ os. build_resolved_context os t a d

-- The list comprehension over the members.
unfoldable pub member_contexts :
    AgentOs → Team → List Agent → Db → Result (List ResolvedRuntimeContext)
unfolding build_resolved_context
member_contexts os t [] d = ok []
member_contexts os t (a ∷ as') d =
    let rest = member_contexts os t as' d in
    then_ok (build_resolved_context os t a d) λ c. then_ok rest λ cs. ok (c ∷ cs)

unfoldable pub build_resolved_team : AgentOs → Team → Db → Result ResolvedTeamContext
unfolding member_contexts compose_team_only
build_resolved_team os t d =
    if is_filled (member_rows t.id d)
    then then_ok (member_contexts os t (member_rows t.id d) d) (λ cs. ok (record {
      agent_os = os;
      team = t;
      team_prompt = compose_team_only os t d;
      member_contexts = cs;
    }))
    else err (
        raised ErrorClass.runtime_execution_failed (about "Team has no enabled member agents" t.id))

unfoldable pub resolve_team_context_by_id : ℕ → Db → Result ResolvedTeamContext
unfolding build_resolved_team
resolve_team_context_by_id team_id d =
    then_ok (enabled_row (λ t. t.enabled) team_id (team_row team_id d)) λ t.
      then_ok (enabled_row (λ o. o.enabled) t.agent_os_id (agent_os_row t.agent_os_id d))
        λ os. build_resolved_team os t d

-- The list comprehension over the enabled teams.
unfoldable pub team_contexts : AgentOs → List Team → Db → Result (List ResolvedTeamContext)
unfolding build_resolved_team
team_contexts os [] d = ok []
team_contexts os (t ∷ ts) d =
    let rest = team_contexts os ts d in
    then_ok (build_resolved_team os t d) λ c. then_ok rest λ cs. ok (c ∷ cs)

abbrev no_agent_os : Failure
no_agent_os = raised ErrorClass.runtime_execution_failed (text "AgentOS not found or disabled")

unfoldable pub resolve_root : Text → Db → Result ResolvedRootContext
unfolding team_contexts compose_root_only get_agent_os_by_code
resolve_root os_code d = elim (enabled_os os_code d) [
  | none ↦ err no_agent_os
  | some os ↦
      if is_filled (team_rows os.id d)
      then then_ok (team_contexts os (team_rows os.id d) d) (λ cs.
        ok (record { agent_os = os; root_prompt = compose_root_only os d; team_contexts = cs }))
      else err
          (raised ErrorClass.runtime_execution_failed (about "AgentOS has no enabled teams" os.id))
]
