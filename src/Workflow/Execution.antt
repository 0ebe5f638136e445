-- ===== src/Workflow/Execution.antt =====
-- app/services/workflow_execution_service.py: `run_workflow`, behind POST /workflows/{id}/run, the
-- scheduler and the webhooks.
use aiplatform.Shared.{ℕ, not, none, some, List, Text, is_filled}
use aiplatform.Errors.{Message, text, about, raised, ErrorClass}
use aiplatform.Exec.{Result, ok, err, Exec, raise_if, or_raise, gets, ◌>>=◌, ◌>>◌}
use aiplatform.Models.{WorkflowStep, WorkflowRunStatus, WorkflowRunStep, MessageRole}
use aiplatform.State.{World, Outside}
use aiplatform.Workflow.Context.{empty_context}
use aiplatform.Workflow.Call.{Call}
use aiplatform.Workflow.Executor.{Callbacks, execute}
use aiplatform.Workflow.Session.{
  WorkflowRunRequest, get_workflow, list_by_workflow, missing_workflow, get_or_create_session,
  add_message,
}
use aiplatform.Workflow.RunService.{
  create_run, mark_running, mark_completed, mark_failed, start_step, complete_step, fail_step,
}

pub record WorkflowRunResponse : Type 0 where
  pub workflow_run_id : ℕ
  pub status : WorkflowRunStatus
  pub result : Text

-- `current_record["record"]`, a KeyError before the first step has started
with_record : (WorkflowRunStep → World → World) → Exec Call (Unit {0})
with_record f c = elim c.current_record [
  | none ↦ (err (raised ErrorClass.other (text "KeyError: record")), c)
  | some row ↦ (ok tt, record c { world = f row c.world })
]

abbrev started : WorkflowRunStep × World → Call → Call
started (row, w) c = record c { world = w; current_record = some row }

-- The closures of `run_workflow`.
unfoldable pub callbacks : Outside → ℕ → Callbacks
unfolding with_record
callbacks o run_id = record {
  on_step_started =
      λ step step_input c. (ok tt, started (start_step o run_id step step_input c.world) c);
  on_step_completed = λ step output. with_record (λ row. complete_step o row output);
  on_step_failed = λ step error. with_record (λ row. fail_step o row error);
}

abbrev pub start_call : World → Call
start_call w = record { world = w; context = empty_context; current_record = none }

-- `except RuntimeExecutionError`: other exceptions pass by.
abbrev pub on_failure : Outside → ℕ → ErrorClass → Message → World → World
on_failure o run_id ErrorClass.runtime_execution_failed m w = mark_failed o run_id m w
on_failure o run_id _ m w = w

abbrev pub response : ℕ → Text → WorkflowRunResponse
response run_id result = record {
  workflow_run_id = run_id;
  status = WorkflowRunStatus.completed;
  result = result;
}

-- What follows the executor.
unfoldable pub conclude : Outside → ℕ → ℕ → Result Text × Call → Result WorkflowRunResponse × World
conclude o run_id session_id (ok result, c) = (
  ok (response run_id result),
  mark_completed o run_id result (add_message session_id none MessageRole.assistant result c.world),
)
conclude o run_id session_id (err e, c) = (err e, on_failure o run_id e.kind e.message c.world)

-- From the session on.
unfoldable pub run_in_session :
    Outside → ℕ → WorkflowRunRequest → List WorkflowStep → ℕ → Exec World WorkflowRunResponse
unfolding create_run mark_running add_message callbacks execute conclude
run_in_session o workflow_id req steps session_id w =
    let (run, w₁) = create_run workflow_id session_id req.input req.user_id w in
    let w₂ = mark_running o run.id (add_message session_id none MessageRole.user req.input w₁) in
    conclude o run.id session_id (execute o (callbacks o run.id) req.input steps (start_call w₂))

unfoldable pub run_workflow : Outside → ℕ → WorkflowRunRequest → Exec World WorkflowRunResponse
unfolding get_workflow list_by_workflow get_or_create_session run_in_session
run_workflow o workflow_id req = do
  found ← gets (λ w. get_workflow workflow_id w.db)
  wf ← or_raise found (missing_workflow workflow_id)
  raise_if (not wf.enabled)
      (raised ErrorClass.runtime_execution_failed (about "Workflow is disabled" workflow_id))
  steps ← gets (λ w. list_by_workflow workflow_id w.db)
  raise_if (not (is_filled steps)) (
      raised ErrorClass.runtime_execution_failed
        (about "Workflow has no steps configured" workflow_id))
  session ← get_or_create_session workflow_id req
  run_in_session o workflow_id req steps session.id
