-- ===== src/Workflow/Runner.antt =====
-- app/agno_runtime/workflow_runner.py: one step. The engine (app/agno_runtime/engine.py), which
-- resolves the agent or the team and hands the run to agno, is the parameter `Outside`.
use aiplatform.Shared.{ℕ, suc, Option, none, some, Text}
use aiplatform.Errors.{about, raised, ErrorClass}
use aiplatform.Exec.{ok, err, Exec}
use aiplatform.Models.{WorkflowStep, WorkflowStepType, agent, team}
use aiplatform.State.{Outside, Reply, answered, failed}
use aiplatform.Workflow.Call.{Call}

abbrev pub called : Call → Call
called c = record c { world = record c.world { calls = suc c.world.calls } }

abbrev pub receive : Reply → Exec Call Text
receive (answered t) c = (ok t, called c)
receive (failed m) c = (err (raised ErrorClass.other m), called c)

-- The context's "currently executing" fields.
abbrev pub executing : Option ℕ → Option ℕ → Call → Call
executing agent_id team_id c = record c {
  context = record c.context { agent_id = agent_id; team_id = team_id };
}

run_agent_step : Outside → ℕ → Option ℕ → Text → Exec Call Text
run_agent_step o step_id none step_input c = (
  err (raised ErrorClass.runtime_execution_failed (about "AGENT step without agent_id" step_id)),
  c,
)
run_agent_step o step_id (some a) step_input c =
    receive (o.run_agent c.world.calls a step_input) (executing (some a) none c)

run_team_step : Outside → ℕ → Option ℕ → Text → Exec Call Text
run_team_step o step_id none step_input c = (
  err (raised ErrorClass.runtime_execution_failed (about "TEAM step without team_id" step_id)),
  c,
)
run_team_step o step_id (some t) step_input c =
    receive (o.run_team c.world.calls t step_input) (executing none (some t) c)

dispatch_step : Outside → WorkflowStepType → WorkflowStep → Text → Exec Call Text
dispatch_step o agent step = run_agent_step o step.id step.agent_id
dispatch_step o team step = run_team_step o step.id step.team_id

-- `WorkflowRunner.run_step`
unfoldable pub run_step : Outside → WorkflowStep → Text → Exec Call Text
unfolding dispatch_step run_agent_step run_team_step
run_step o step = dispatch_step o step.step_type step
