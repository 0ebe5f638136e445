-- ===== src/Workflow/Examples.antt =====
-- Concrete workflow calls, and the theorems applied to them.
use aiplatform.Shared.{◌≡◌, refl, true, false, none, some, List, [], ◌∷◌}
use aiplatform.Errors.{Failure, about, text, raised, ErrorClass}
use aiplatform.Exec.{Result, ok, err}
use aiplatform.Models.{Workflow, WorkflowStep, WorkflowStepType, ChatSession}
use aiplatform.State.{World}
use aiplatform.State.Examples.{empty_db, blank, echo}
use aiplatform.Workflow.Session.{WorkflowRunRequest, get_or_create_session, list_by_workflow}
use aiplatform.Workflow.Execution.{run_in_session, run_workflow, callbacks, start_call}
use aiplatform.Workflow.Executor.{execute, step_error}
use aiplatform.Workflow.Pipeline.{pipeline, execute-pipeline, IsGapless}
use aiplatform.Workflow.Outcome.{Ends, run_in_session-Ends}
use aiplatform.Workflow.Trigger.{
  CallChain, enter_workflow_trigger, no_trigger, IsSafe, inside, outside, IsTriggerChain-IsSafe,
}
use aiplatform.Workflow.Registry.{ResolvedStep, replace_steps}
use aiplatform.Workflow.Numbering.{stored, submitted, replace_steps-IsGapless}
use aiplatform.Workflow.Streaming.{run_workflow_stream}
use aiplatform.Workflow.Durable.{AreMarkersDurable, run_workflow_stream-AreMarkersDurable}
use aiplatform.Workflow.Ownership.{get_or_create_session_owner}

abbrev pub drafting : Workflow
drafting = record {
  id = 1;
  agent_os_id = 7;
  code = 100 ∷ [];
  name = 68 ∷ [];
  team_id = none;
  enabled = true;
  deleted = false;
}

abbrev pub draft : WorkflowStep
draft = record {
  id = 10;
  workflow_id = 1;
  step_order = 0;
  step_type = WorkflowStepType.agent;
  agent_id = some 5;
  team_id = none;
}

abbrev review : WorkflowStep
review = record {
  id = 11;
  workflow_id = 1;
  step_order = 1;
  step_type = WorkflowStepType.team;
  agent_id = none;
  team_id = some 6;
}

-- A TEAM step without its team.
abbrev broken : WorkflowStep
broken = record review { team_id = none }

abbrev steps_of : List WorkflowStep → World
steps_of steps = blank (record empty_db { workflows = drafting ∷ []; workflow_steps = steps })

abbrev ask : WorkflowRunRequest
ask = record { input = 104 ∷ 105 ∷ []; session_id = some 30; user_id = some (97 ∷ []) }

-- The agent's answer is the team's input, though the rows come in the other order.
executed_example :
    (execute echo
      (callbacks echo 3)
      ask.input
      (review ∷ draft ∷ [])
      (start_call (blank empty_db))).0
    ≡ ok (104 ∷ 105 ∷ [])
unfolding execute callbacks
executed_example = refl

missing_example :
    (run_workflow echo 2 ask (steps_of [])).0
    ≡ err (raised ErrorClass.not_found (about "Workflow not found" 2))
unfolding run_workflow
missing_example = refl

execute-pipeline_example :
    (execute echo
      (callbacks echo 3)
      ask.input
      (draft ∷ review ∷ [])
      (start_call (blank empty_db))).0
    ≡ pipeline echo 0 (draft ∷ review ∷ []) ask.input
execute-pipeline_example =
    execute-pipeline echo 3 ask.input draft (review ∷ []) (start_call (blank empty_db))
      (refl, (refl, tt))

run_in_session-Ends_example :
    Ends 100
      (pipeline echo 0 (draft ∷ broken ∷ []) ask.input)
      (run_in_session echo 1 ask (draft ∷ broken ∷ []) 30 (steps_of (draft ∷ broken ∷ [])))
run_in_session-Ends_example =
    run_in_session-Ends echo 1 30 ask draft (broken ∷ []) (steps_of (draft ∷ broken ∷ []))
      (refl, (refl, tt)) tt

abbrev lost : Failure
lost = step_error broken (about "TEAM step without team_id" 11)

abbrev alices : ChatSession
alices = record {
  id = 30;
  agent_os_id = 7;
  team_id = none;
  agent_id = none;
  user_id = some (97 ∷ []);
  title = [];
  deleted = false;
}

abbrev with_session : World
with_session = blank (record empty_db { workflows = drafting ∷ []; chat_sessions = alices ∷ [] })

continued : (get_or_create_session 1 ask with_session).0 ≡ ok alices
unfolding get_or_create_session
continued = refl

-- Another user does not get it.
refused_example :
    (get_or_create_session 1 (record ask { user_id = none }) with_session).0
    ≡ err (raised ErrorClass.not_found (about "ChatSession not found for this user_id" 30))
unfolding get_or_create_session
refused_example = refl

get_or_create_session_owner_example : (alices.user_id ≡ some (97 ∷ [])) × (alices.id ≡ 30)
get_or_create_session_owner_example =
    get_or_create_session_owner 1 ask with_session alices continued

abbrev nested : CallChain
nested = record { depth = 1; visited = drafting.code ∷ [] }

entered : enter_workflow_trigger drafting.code 9 no_trigger ≡ ok nested
unfolding enter_workflow_trigger
entered = refl

-- A second time is refused.
cycle_refused :
    enter_workflow_trigger drafting.code 9 nested
    ≡ err (raised ErrorClass.runtime_execution_failed (text "Cycle detected"))
unfolding enter_workflow_trigger
cycle_refused = refl

IsTriggerChain-IsSafe_example : IsSafe nested
IsTriggerChain-IsSafe_example =
    IsTriggerChain-IsSafe nested (inside drafting.code 9 no_trigger nested outside entered)

abbrev resolved : List ResolvedStep
resolved =
    (record { step_type = WorkflowStepType.agent; agent_id = some 5; team_id = none })
    ∷ (record { step_type = WorkflowStepType.team; agent_id = none; team_id = some 6 })
    ∷ []

replace_steps-IsGapless_example :
    (stored (list_by_workflow 1 (replace_steps 1 resolved (steps_of (review ∷ draft ∷ []))).db)
      ≡ submitted resolved)
    × IsGapless 0
        (list_by_workflow 1 (replace_steps 1 resolved (steps_of (review ∷ draft ∷ []))).db)
replace_steps-IsGapless_example =
    replace_steps-IsGapless 1 resolved (steps_of (review ∷ draft ∷ []))

abbrev streamed : Result (Unit {0}) × World
streamed = run_workflow_stream echo 1 ask (steps_of (review ∷ draft ∷ []))

streamed_run : streamed.0 ≡ ok tt
unfolding run_workflow_stream
streamed_run = refl

run_workflow_stream-AreMarkersDurable_example : AreMarkersDurable streamed.1
run_workflow_stream-AreMarkersDurable_example =
    run_workflow_stream-AreMarkersDurable echo 1 ask (steps_of (review ∷ draft ∷ [])) tt
