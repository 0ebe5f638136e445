-- ===== src/Workflow/Call.antt =====
-- The variables of one execution: the state of the session, the `WorkflowContext` object that the
-- executor and the runner share, and the `current_record` of `run_workflow`.
use aiplatform.Shared.{Option}
use aiplatform.Models.{WorkflowRunStep}
use aiplatform.State.{World}
use aiplatform.Workflow.Context.{WorkflowContext}

pub record Call : Type 0 where
  pub world : World
  pub context : WorkflowContext
  pub current_record : Option WorkflowRunStep
