-- ===== src/Workflow/Streaming.antt =====
-- `WorkflowExecutor.execute_stream` and `WorkflowExecutionService.run_workflow_stream`, behind
-- POST /workflows/{id}/run/stream. What is yielded goes to `World.sent`.
use aiplatform.Shared.{
  ℕ, suc, not, Option, none, some, List, [], ◌∷◌, ◌++◌, Text, is_filled, if◌then◌else◌, max,
}
use aiplatform.Errors.{Message, about, step_failed, raised, ErrorClass}
use aiplatform.Exec.{Result, ok, err, Exec, pure, raise_if, or_raise, gets, ◌>>=◌, ◌>>◌}
use aiplatform.Models.{WorkflowStep, WorkflowRunStep, agent, team, MessageRole, StreamPayload}
use aiplatform.State.{
  World, Outside, StreamEvent, EventStream, committed, sent_after, calling, after_tools,
  workflow_started, workflow_step_started, workflow_step_event, workflow_step_completed,
  workflow_step_failed, workflow_completed, workflow_failed,
}
use aiplatform.Workflow.Context.{
  WorkflowContext, get_or, previous_output, record_result, empty_context,
}
use aiplatform.Workflow.Executor.{sort_steps}
use aiplatform.Workflow.Session.{
  WorkflowRunRequest, get_workflow, list_by_workflow, missing_workflow, get_or_create_session,
  add_message,
}
use aiplatform.Workflow.RunService.{
  create_run, mark_running, mark_completed, mark_failed, start_step, complete_step, fail_step,
}

-- A generator that raises before its first event.
abbrev broken_stream : Message → EventStream
broken_stream m = record { events = []; failure = some m }

-- `WorkflowRunner.run_step_stream`
unfoldable pub run_step_stream : Outside → WorkflowStep → Text → World → EventStream
run_step_stream o step x w = elim step.step_type [
  | agent ↦ elim step.agent_id [
    | none ↦ broken_stream (about "AGENT step without agent_id" step.id)
    | some a ↦ o.stream_agent w.calls a x
  ]
  | team ↦ elim step.team_id [
    | none ↦ broken_stream (about "TEAM step without team_id" step.id)
    | some t ↦ o.stream_team w.calls t x
  ]
]

-- `str(payload.get("content", ""))` of assistant content
abbrev pub output_piece : StreamPayload → Text
output_piece p = if p.is_assistant_content then elim p.content [ none ↦ [] | some c ↦ c ] else []

-- The events of one step, from the k-th on: what they add to its output, and their forwarding; what
-- the step's tools wrote in the meantime is in the session, and not committed.
unfoldable pub forward_step : Outside → ℕ → ℕ → ℕ → List StreamEvent → Text → World → Text × World
forward_step o run_id order k [] output w = (output, after_tools o k w)
forward_step o run_id order k (e ∷ es) output w =
    forward_step o run_id order (suc k) es (output ++ output_piece e.payload)
      (sent_after (workflow_step_event run_id order e.payload) (after_tools o k w))

-- The step's end: its row, the commit, the marker; with the error of a failed step.
unfoldable pub end_step :
    Outside
    → ℕ
    → WorkflowStep
    → WorkflowRunStep
    → Option Message
    → Text × World
    → Result Text × World
unfolding complete_step fail_step
end_step o run_id step row none (output, w) = (
  ok output,
  sent_after (workflow_step_completed run_id step.step_order output)
      (committed (complete_step o row output w)),
)
end_step o run_id step row (some m) (output, w) = (
  err (raised ErrorClass.runtime_execution_failed (step_failed step.step_order m)),
  sent_after (workflow_step_failed run_id step.step_order m) (committed (fail_step o row m w)),
)

unfoldable pub stream_step : Outside → ℕ → WorkflowStep → Text → Exec World Text
unfolding start_step run_step_stream forward_step end_step
stream_step o run_id step x w =
    let (row, w₁) = start_step o run_id step x w in
    let w₂ =
      sent_after (workflow_step_started run_id step.step_order step.step_type) (committed w₁) in
    let events = run_step_stream o step x w₂ in
    end_step o run_id step row events.failure
      (forward_step o run_id step.step_order 0 events.events [] (calling w₂))

-- The loop over the sorted steps, with the dict of their outputs.
unfoldable pub stream_steps :
    Outside → ℕ → Text → List WorkflowStep → WorkflowContext → Exec World WorkflowContext
unfolding stream_step previous_output record_result
stream_steps o run_id input [] c = pure c
stream_steps o run_id input (s ∷ ss) c = do
  output ← stream_step o run_id s (previous_output c s.step_order input)
  stream_steps o run_id input ss (record_result s.step_order output c)

-- `context.stepResults.get(max(context.stepResults.keys()), "")`
abbrev last_key : List (ℕ × Text) → ℕ
last_key [] = 0
last_key ((k, _) ∷ d) = max k (last_key d)

unfoldable pub final_result : WorkflowContext → Text
unfolding get_or
final_result c = get_or c.step_results (last_key c.step_results) []

unfoldable pub conclude_stream : Outside → ℕ → ℕ → Result WorkflowContext × World → World
unfolding mark_completed mark_failed add_message final_result
conclude_stream o run_id session_id (ok c, w) =
    let result = final_result c in
    sent_after (workflow_completed run_id result) (
      committed (
        mark_completed o run_id result
          (add_message session_id none MessageRole.assistant result w)))
conclude_stream o run_id session_id (err e, w) =
    sent_after (workflow_failed run_id e.message) (committed (mark_failed o run_id e.message w))

-- From the session on.
unfoldable pub stream_in_session :
    Outside → ℕ → WorkflowRunRequest → List WorkflowStep → ℕ → World → World
unfolding create_run mark_running add_message stream_steps conclude_stream sort_steps
stream_in_session o workflow_id req steps session_id w =
    let (run, w₁) = create_run workflow_id session_id req.input req.user_id w in
    let w₂ = committed (add_message session_id none MessageRole.user req.input w₁) in
    let w₃ =
      sent_after (workflow_started run.id req.input) (committed (mark_running o run.id w₂)) in
    conclude_stream o run.id session_id
      (stream_steps o run.id req.input (sort_steps steps) empty_context w₃)

unfoldable pub run_workflow_stream : Outside → ℕ → WorkflowRunRequest → Exec World (Unit {0})
unfolding get_workflow list_by_workflow get_or_create_session stream_in_session
run_workflow_stream o workflow_id req = do
  found ← gets (λ w. get_workflow workflow_id w.db)
  wf ← or_raise found (missing_workflow workflow_id)
  raise_if (not wf.enabled)
      (raised ErrorClass.runtime_execution_failed (about "Workflow is disabled" workflow_id))
  steps ← gets (λ w. list_by_workflow workflow_id w.db)
  raise_if (not (is_filled steps)) (
      raised ErrorClass.runtime_execution_failed
        (about "Workflow has no steps configured" workflow_id))
  session ← get_or_create_session workflow_id req
  λ w. (ok tt, stream_in_session o workflow_id req steps session.id w)
