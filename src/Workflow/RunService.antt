-- ===== src/Workflow/RunService.antt =====
-- app/services/workflow_run_service.py: the rows of a run. None of its methods raises, so each is
-- a function of the state; a method that returns a row gives it beside the new state.
use aiplatform.Shared.{ℕ, suc, Option, none, some, [], ◌∷◌, ◌++◌, Text, ◌==◌, length, update_where}
use aiplatform.Errors.{Message}
use aiplatform.Models.{
  WorkflowStep, WorkflowRun, WorkflowRunStatus, WorkflowStepStatus, WorkflowRunStep,
  WorkflowEventType, WorkflowPayload, of_input, of_step, of_step_order, of_result_length, of_error,
}
use aiplatform.Clock.{timestamp}
use aiplatform.State.{World, Outside, change}

unfoldable pub emit_event : ℕ → WorkflowEventType → WorkflowPayload → World → World
emit_event run_id kind payload = change λ d. record d {
  workflow_events =
      d.workflow_events
      ++ (record { workflow_run_id = run_id; event_type = kind; payload = payload }) ∷ [];
}

-- The clock's next reading.
abbrev time_of : Outside → World → ℕ
time_of o w = timestamp (o.now w.readings)

abbrev tick : World → World
tick w = record w { readings = suc w.readings }

-- A new row of `workflow_runs`.
abbrev pub new_run : ℕ → ℕ → ℕ → Text → Option Text → WorkflowRun
new_run id workflow_id session_id input created_by = record {
  id = id;
  workflow_id = workflow_id;
  session_id = session_id;
  status = WorkflowRunStatus.pending;
  input = input;
  result = none;
  error_message = none;
  started_at = none;
  completed_at = none;
  created_by = created_by;
}

unfoldable pub create_run : ℕ → ℕ → Text → Option Text → World → WorkflowRun × World
unfolding emit_event
create_run workflow_id session_id input created_by w =
    let run = new_run w.db.next_id workflow_id session_id input created_by in
    let w' =
      change
        (λ d. record d { next_id = suc d.next_id; workflow_runs = d.workflow_runs ++ run ∷ [] })
        w in
    (run, emit_event run.id WorkflowEventType.workflow_started (of_input input) w')

-- Assignments to the attributes of a run, and their flush.
abbrev pub update_run : ℕ → (WorkflowRun → WorkflowRun) → World → World
update_run run_id f =
    change λ d. record d { workflow_runs = update_where (λ r. r.id == run_id) f d.workflow_runs }

unfoldable pub mark_running : Outside → ℕ → World → World
mark_running o run_id w = tick (
    update_run run_id
      (λ r. record r { status = WorkflowRunStatus.running; started_at = some (time_of o w) }) w)

unfoldable pub mark_completed : Outside → ℕ → Text → World → World
unfolding emit_event
mark_completed o run_id result w =
    emit_event run_id WorkflowEventType.workflow_completed (of_result_length (length result)) (
      tick (
        update_run run_id
          (λ r. record r {
            status = WorkflowRunStatus.completed;
            result = some result;
            completed_at = some (time_of o w);
          })
          w))

unfoldable pub mark_failed : Outside → ℕ → Message → World → World
unfolding emit_event
mark_failed o run_id error w =
    emit_event run_id WorkflowEventType.workflow_failed (of_error error) (
      tick (
        update_run run_id
          (λ r. record r {
            status = WorkflowRunStatus.failed;
            error_message = some error;
            completed_at = some (time_of o w);
          })
          w))

abbrev pub new_step : ℕ → ℕ → WorkflowStep → Text → ℕ → WorkflowRunStep
new_step id run_id step step_input time = record {
  id = id;
  workflow_run_id = run_id;
  workflow_step_id = step.id;
  step_order = step.step_order;
  status = WorkflowStepStatus.running;
  input = step_input;
  output = none;
  error_message = none;
  started_at = some time;
  completed_at = none;
}

unfoldable pub start_step : Outside → ℕ → WorkflowStep → Text → World → WorkflowRunStep × World
unfolding emit_event
start_step o run_id step step_input w =
    let row = new_step w.db.next_id run_id step step_input (time_of o w) in
    let w' =
      change
        (λ d. record d {
          next_id = suc d.next_id;
          workflow_run_steps = d.workflow_run_steps ++ row ∷ [];
        })
        (tick w) in
    (
      row,
      emit_event run_id WorkflowEventType.workflow_step_started
          (of_step step.step_order step.step_type) w',
    )

abbrev pub update_step : ℕ → (WorkflowRunStep → WorkflowRunStep) → World → World
update_step id f =
    change
      λ d. record d { workflow_run_steps = update_where (λ r. r.id == id) f d.workflow_run_steps }

abbrev pub completed_row : Text → ℕ → WorkflowRunStep → WorkflowRunStep
completed_row output time r = record r {
  status = WorkflowStepStatus.completed;
  output = some output;
  completed_at = some time;
}

abbrev pub failed_row : Message → ℕ → WorkflowRunStep → WorkflowRunStep
failed_row error time r = record r {
  status = WorkflowStepStatus.failed;
  error_message = some error;
  completed_at = some time;
}

unfoldable pub complete_step : Outside → WorkflowRunStep → Text → World → World
unfolding emit_event
complete_step o row output w =
    emit_event row.workflow_run_id WorkflowEventType.workflow_step_completed
      (of_step_order row.step_order)
      (tick (update_step row.id (completed_row output (time_of o w)) w))

-- A failed step has no event of its own.
unfoldable pub fail_step : Outside → WorkflowRunStep → Message → World → World
fail_step o row error w = tick (update_step row.id (failed_row error (time_of o w)) w)
