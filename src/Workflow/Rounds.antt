-- ===== src/Workflow/Rounds.antt =====
-- One round of the executor's loop.
use aiplatform.Shared.{ℕ, ◌≡◌, refl, ap, some, List, ◌∷◌, Text, ◌==◌, update_where}
use mathlib.Core.Path.{subst}
use aiplatform.Clock.{timestamp}
use aiplatform.Errors.{Failure, Message}
use aiplatform.Exec.{Result, err}
use aiplatform.Models.{WorkflowStep}
use aiplatform.State.{Db, Outside, answered, failed}
use aiplatform.Workflow.Context.{previous_output}
use aiplatform.Workflow.Call.{Call}
use aiplatform.Workflow.Executor.{execute_steps, step_error, remember}
use aiplatform.Workflow.Execution.{callbacks}
use aiplatform.Workflow.RunService.{start_step, complete_step, fail_step, update_step, failed_row}
use aiplatform.Workflow.Runner.{run_step}
use aiplatform.Workflow.Steps.{answer, stepped, run_step-answered, run_step-failed}

-- The callbacks of one step, on either side of the run.
abbrev pub before : Outside → ℕ → WorkflowStep → Text → Call → Call
before o run_id s x c = record c {
  world = (start_step o run_id s x c.world).1;
  current_record = some (start_step o run_id s x c.world).0;
}

abbrev pub after : Outside → ℕ → WorkflowStep → Text → Text → Call → Call
after o run_id s x y c =
    let b = before o run_id s x c in
    remember s.step_order y (record (stepped s b) {
      world = complete_step o (start_step o run_id s x c.world).0 y (stepped s b).world;
    })

module _ (o : Outside) (run_id : ℕ) (input : Text) where
  abbrev pub run_from : List WorkflowStep → Text → Call → Result Text × Call
  run_from = execute_steps o (callbacks o run_id) input

  -- One round of the loop when the step answers.
  pub execute_steps-answered :
      (s : WorkflowStep) (ss : List WorkflowStep) (cur : Text) (c : Call) {y : Text}
      → let x = previous_output c.context s.step_order input in
        answer o (before o run_id s x c).world.calls s x ≡ answered y
        → run_from (s ∷ ss) cur c ≡ run_from ss y (after o run_id s x y c)
  unfolding execute_steps callbacks
  execute_steps-answered s ss cur c h =
      rw
        (run_step-answered o s (previous_output c.context s.step_order input)
          (before o run_id s (previous_output c.context s.step_order input) c) h)
        refl

  -- How an execution ends when a step fails: the step's row is marked, and the error raised.
  abbrev pub FailsAt : WorkflowStep → Text → Message → Call → Result Text × Call → Type 0
  FailsAt s x m c r =
      (c' : Call) × (time : ℕ) × (r ≡ (err (step_error s m), c'))
      × (c'.world.db
          ≡ (update_step (start_step o run_id s x c.world).0.id (failed_row m time)
              (before o run_id s x c).world).db)
      × (c'.world.saved ≡ (before o run_id s x c).world.saved)

  fails_at :
      (s : WorkflowStep) (ss : List WorkflowStep) (cur : Text) (c c' : Call) (e : Failure)
      → let x = previous_output c.context s.step_order input in
        run_step o s x (before o run_id s x c) ≡ (err e, c')
        → c'.world.db ≡ (before o run_id s x c).world.db
        → c'.world.saved ≡ (before o run_id s x c).world.saved
        → c'.current_record ≡ some (start_step o run_id s x c.world).0
        → FailsAt s x e.message c (run_from (s ∷ ss) cur c)
  unfolding execute_steps callbacks fail_step
  fails_at s ss cur c c' e h d v k = (
    record c' {
      world =
          fail_step o
            (start_step o run_id s (previous_output c.context s.step_order input) c.world).0
            e.message c'.world;
    },
    timestamp (o.now c'.world.readings),
    rw (h, k),
    ap
        (λ (x : Db). record x {
          workflow_run_steps =
              update_where
                (λ r.
                  r.id
                  == (start_step o run_id s (previous_output c.context s.step_order input)
                      c.world).0.id)
                (failed_row e.message (timestamp (o.now c'.world.readings))) x.workflow_run_steps;
        })
        d,
    v,
  )

  -- One round of the loop when the step fails.
  pub execute_steps-failed :
      (s : WorkflowStep) (ss : List WorkflowStep) (cur : Text) (c : Call) (m : Message)
      → let x = previous_output c.context s.step_order input in
        answer o (before o run_id s x c).world.calls s x ≡ failed m
        → FailsAt s x m c (run_from (s ∷ ss) cur c)
  execute_steps-failed s ss cur c m h =
      let x = previous_output c.context s.step_order input in
      let (e, c', q, em, d, v, n, k) = run_step-failed o s x (before o run_id s x c) m h in
      subst (λ (t : Message). FailsAt s x t c (run_from (s ∷ ss) cur c)) em
        (fails_at s ss cur c c' e q d v k)
