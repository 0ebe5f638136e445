-- ===== src/Workflow/Registry.antt =====
-- app/services/workflow_registry.py: how a workflow and its steps get into the tables.
use aiplatform.Shared.{
  ℕ, suc, Bool, true, false, ◌&&◌, not, Option, none, some, List, [], ◌∷◌, ◌++◌, Text, ◌==◌,
  same_text, first_where, select, page, length, ◌+◌, is_some, update_where, or_else,
}
use aiplatform.Errors.{about, text, raised, ErrorClass}
use aiplatform.Exec.{
  Result, ok, err, Exec, pure, raise_if, or_raise, gets, modify, lift, ◌>>=◌, ◌>>◌,
}
use aiplatform.Models.{Team, Agent, Workflow, WorkflowStep, WorkflowStepType}
use aiplatform.State.{Db, World, change}
use aiplatform.Workflow.Session.{get_workflow, missing_workflow}

-- app/schemas/workflow.py
pub record WorkflowStepDefinition : Type 0 where
  pub step_type : WorkflowStepType
  pub agent_code : Text
  pub team_code : Text

pub record WorkflowCreate : Type 0 where
  pub agent_os_id : ℕ
  pub code : Text
  pub name : Text
  pub team_id : Option ℕ
  pub enabled : Bool
  pub steps : List WorkflowStepDefinition

pub record WorkflowUpdate : Type 0 where
  pub name : Option Text
  pub team_id : Option ℕ
  pub enabled : Option Bool
  pub steps : Option (List WorkflowStepDefinition)

-- What `_resolve_step_definitions` finds for a step.
pub record ResolvedStep : Type 0 where
  pub step_type : WorkflowStepType
  pub agent_id : Option ℕ
  pub team_id : Option ℕ

-- The hierarchy's repositories.
abbrev pub team_by_code : ℕ → Text → Db → Option Team
team_by_code os code d =
    first_where (λ t. t.agent_os_id == os && (same_text t.code code && not t.deleted)) d.teams

abbrev pub agent_by_code : ℕ → Text → Db → Option Agent
agent_by_code team code d =
    first_where (λ a. a.team_id == team && (same_text a.code code && not a.deleted)) d.agents

unfoldable pub find_agent_in : List Team → Text → Db → Option Agent
find_agent_in [] code d = none
find_agent_in (t ∷ ts) code d = or_else (agent_by_code t.id code d) (find_agent_in ts code d)

-- `_find_agent_by_code_in_agent_os`, over at most 500 teams.
unfoldable pub find_agent_by_code_in_agent_os : ℕ → Text → Db → Option Agent
unfolding find_agent_in
find_agent_by_code_in_agent_os os code d =
    find_agent_in (page 500 (select (λ t. t.agent_os_id == os && not t.deleted) d.teams)) code d

agent_step : Option Agent → Result ResolvedStep
agent_step none = err (raised ErrorClass.not_found (text "No enabled agent with this code"))
agent_step (some a) =
    ok (record { step_type = WorkflowStepType.agent; agent_id = some a.id; team_id = none })

team_step : Option Team → Result ResolvedStep
team_step none = err (raised ErrorClass.not_found (text "No team with this code"))
team_step (some t) =
    ok (record { step_type = WorkflowStepType.team; agent_id = none; team_id = some t.id })

unfoldable pub resolve_step : ℕ → WorkflowStepDefinition → Db → Result ResolvedStep
unfolding find_agent_by_code_in_agent_os agent_step team_step
resolve_step os step d = elim step.step_type [
  | WorkflowStepType.agent ↦ agent_step (find_agent_by_code_in_agent_os os step.agent_code d)
  | WorkflowStepType.team ↦ team_step (team_by_code os step.team_code d)
]

abbrev and_then : Result ResolvedStep → Result (List ResolvedStep) → Result (List ResolvedStep)
and_then (err e) rest = err e
and_then (ok s) (err e) = err e
and_then (ok s) (ok ss) = ok (s ∷ ss)

unfoldable pub resolve_step_definitions :
    ℕ → List WorkflowStepDefinition → Db → Result (List ResolvedStep)
unfolding resolve_step
resolve_step_definitions os [] d = ok []
resolve_step_definitions os (s ∷ ss) d =
    and_then (resolve_step os s d) (resolve_step_definitions os ss d)

-- `enumerate(steps)`, each step with a new identifier.
unfoldable pub number_steps : ℕ → ℕ → ℕ → List ResolvedStep → List WorkflowStep
number_steps workflow_id id order [] = []
number_steps workflow_id id order (s ∷ ss) =
    record {
      id = id;
      workflow_id = workflow_id;
      step_order = order;
      step_type = s.step_type;
      agent_id = s.agent_id;
      team_id = s.team_id;
    }
    ∷ number_steps workflow_id (suc id) (suc order) ss

-- `WorkflowStepRepository.replace_steps`
unfoldable pub replace_steps : ℕ → List ResolvedStep → World → World
unfolding number_steps
replace_steps workflow_id steps = change λ d. record d {
  next_id = d.next_id + length steps;
  workflow_steps =
      select (λ s. not (s.workflow_id == workflow_id)) d.workflow_steps
      ++ number_steps workflow_id d.next_id 0 steps;
}

-- `_resolve_step_definitions` and `replace_steps`.
unfoldable pub define_steps : ℕ → ℕ → List WorkflowStepDefinition → Exec World (Unit {0})
unfolding resolve_step_definitions replace_steps
define_steps os workflow_id steps = do
  resolved ← gets (λ w. resolve_step_definitions os steps w.db)
  found ← lift resolved
  modify (replace_steps workflow_id found)

abbrev pub workflow_by_code : ℕ → Text → Db → Option Workflow
workflow_by_code os code d =
    first_where (λ w. w.agent_os_id == os && (same_text w.code code && not w.deleted)) d.workflows

-- `workflows.team_id must reference a team under the same AgentOS`
unfoldable pub is_team_of : ℕ → Option ℕ → Db → Bool
is_team_of os none d = true
is_team_of os (some id) d = elim (first_where (λ t. t.id == id && not t.deleted) d.teams) [
  | none ↦ false
  | some t ↦ t.agent_os_id == os
]

unfoldable pub insert_workflow : WorkflowCreate → Exec World ℕ
insert_workflow p w = (
  ok w.db.next_id,
  change
      (λ d. record d {
        next_id = suc d.next_id;
        workflows =
            d.workflows
            ++ record {
              id = d.next_id;
              agent_os_id = p.agent_os_id;
              code = p.code;
              name = p.name;
              team_id = p.team_id;
              enabled = p.enabled;
              deleted = false;
            }
              ∷ [];
      })
      w,
)

-- The identifier of the new workflow, in place of its rows.
unfoldable pub create_workflow : WorkflowCreate → Exec World ℕ
unfolding is_team_of insert_workflow define_steps
create_workflow p = do
  os ← gets (λ w. first_where (λ a. a.id == p.agent_os_id && not a.deleted) w.db.agent_oses)
  raise_if (not (is_some os))
      (raised ErrorClass.not_found (about "AgentOS not found" p.agent_os_id))
  existing ← gets (λ w. workflow_by_code p.agent_os_id p.code w.db)
  raise_if (is_some existing)
      (raised ErrorClass.conflict (text "Workflow with this code already exists"))
  fits ← gets (λ w. is_team_of p.agent_os_id p.team_id w.db)
  raise_if (not fits) (
      raised ErrorClass.validation_failed
        (text "team_id must reference a team under the same AgentOS"))
  id ← insert_workflow p
  define_steps p.agent_os_id id p.steps
  pure id

-- `soft_delete`
unfoldable pub delete_workflow : ℕ → Exec World (Unit {0})
unfolding get_workflow
delete_workflow id = do
  found ← gets (λ w. get_workflow id w.db)
  or_raise found (missing_workflow id)
  modify (
      change (λ d. record d {
        workflows = update_where (λ x. x.id == id) (λ x. record x { deleted = true }) d.workflows;
      }))

abbrev given {ℓ} : {A : Type ℓ} → Option A → A → A
given none old = old
given (some new) old = new

-- `BaseRepository.update` skips a value of None.
abbrev pub updated_workflow : WorkflowUpdate → Workflow → Workflow
updated_workflow p wf = record wf {
  name = given p.name wf.name;
  team_id = or_else p.team_id wf.team_id;
  enabled = given p.enabled wf.enabled;
}

abbrev redefine_steps : ℕ → ℕ → Option (List WorkflowStepDefinition) → Exec World (Unit {0})
redefine_steps os id none = pure tt
redefine_steps os id (some steps) = define_steps os id steps

unfoldable pub update_workflow : ℕ → WorkflowUpdate → Exec World (Unit {0})
unfolding get_workflow define_steps
update_workflow id p = do
  found ← gets (λ w. get_workflow id w.db)
  wf ← or_raise found (missing_workflow id)
  modify (
      change (λ d. record d {
        workflows = update_where (λ x. x.id == id) (updated_workflow p) d.workflows;
      }))
  redefine_steps wf.agent_os_id id p.steps
