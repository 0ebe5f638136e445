-- ===== src/Workflow/Executor.antt =====
-- app/agno_runtime/workflow_executor.py: `WorkflowExecutor.execute`.
use aiplatform.Shared.{ℕ, List, [], ◌∷◌, Text, leb, if◌then◌else◌}
use aiplatform.Errors.{Failure, Message, text, step_failed, raised, ErrorClass}
use aiplatform.Exec.{Exec, pure, raise, gets, modify, try_with, ◌>>=◌, ◌>>◌}
use aiplatform.Models.{WorkflowStep}
use aiplatform.State.{Outside}
use aiplatform.Workflow.Context.{previous_output, record_result}
use aiplatform.Workflow.Call.{Call}
use aiplatform.Workflow.Runner.{run_step}

-- `sorted(steps, key=lambda s: s.step_order)`, which is stable.
unfoldable pub insert_step : WorkflowStep → List WorkflowStep → List WorkflowStep
insert_step x [] = x ∷ []
insert_step x (y ∷ ys) =
    let rest = insert_step x ys in if leb x.step_order y.step_order then x ∷ y ∷ ys else y ∷ rest

unfoldable pub sort_steps : List WorkflowStep → List WorkflowStep
unfolding insert_step
sort_steps [] = []
sort_steps (x ∷ xs) = insert_step x (sort_steps xs)

-- The three callbacks.
pub record Callbacks : Type 0 where
  pub on_step_started : WorkflowStep → Text → Exec Call (Unit {0})
  pub on_step_completed : WorkflowStep → Text → Exec Call (Unit {0})
  pub on_step_failed : WorkflowStep → Message → Exec Call (Unit {0})

abbrev pub remember : ℕ → Text → Call → Call
remember n output c = record c { context = record_result n output c.context }

abbrev pub step_error : WorkflowStep → Message → Failure
step_error step m = raised ErrorClass.runtime_execution_failed (step_failed step.step_order m)

module _ (o : Outside) (cb : Callbacks) (initial_input : Text) where
  -- The loop over the sorted steps.
  unfoldable pub execute_steps : List WorkflowStep → Text → Exec Call Text
  unfolding run_step previous_output record_result
  execute_steps [] current_output = pure current_output
  execute_steps (step ∷ steps) current_output = do
    step_input ← gets (λ c. previous_output c.context step.step_order initial_input)
    cb.on_step_started step step_input
    try_with (run_step o step step_input)
        (λ output. do
          cb.on_step_completed step output
          modify (remember step.step_order output)
          execute_steps steps output)
        (λ e. do cb.on_step_failed step e.message; raise (step_error step e.message))

  unfoldable pub execute : List WorkflowStep → Exec Call Text
  unfolding execute_steps sort_steps
  execute [] =
      raise (raised ErrorClass.runtime_execution_failed (text "Workflow has no steps to execute"))
  execute (s ∷ ss) = execute_steps (sort_steps (s ∷ ss)) initial_input
