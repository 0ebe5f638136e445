-- ===== src/Workflow/Kept.antt =====
-- What an execution of steps leaves as it is.
use aiplatform.Shared.{ℕ, ◌≡◌, refl, ap, ◌∙◌, inl, inr, List, [], ◌∷◌, Text}
use aiplatform.Exec.{Result}
use aiplatform.Models.{WorkflowStep, WorkflowRun, WorkflowSchedule}
use aiplatform.State.{Db, Outside}
use aiplatform.Workflow.Context.{previous_output}
use aiplatform.Workflow.Call.{Call}
use aiplatform.Workflow.Executor.{sort_steps, execute_steps, execute}
use aiplatform.Workflow.Execution.{callbacks}
use aiplatform.Workflow.RunService.{start_step, complete_step}
use aiplatform.Workflow.Steps.{answer, Reply-cases}
use aiplatform.Workflow.Rounds.{
  before, after, run_from, execute_steps-answered, execute_steps-failed,
}

-- Tables that the steps of a run do not write.
abbrev pub beside_steps : Db → List WorkflowRun × List WorkflowSchedule
beside_steps d = (d.workflow_runs, d.workflow_schedules)

module _ (o : Outside) (run_id : ℕ) (input : Text) where
  -- Rows of runs and of schedules are no business of the steps.
  rows_kept :
      (ss : List WorkflowStep) (cur : Text) (c : Call)
      → beside_steps (run_from o run_id input ss cur c).1.world.db ≡ beside_steps c.world.db
  rows_kept [] cur c = unfold execute_steps in refl
  rows_kept (s ∷ ss) cur c =
      let x = previous_output c.context s.step_order input in
      elim (Reply-cases (answer o (before o run_id s x c).world.calls s x)) [
        | inl (y, h) ↦
            ap (λ (r : Result Text × Call). beside_steps r.1.world.db)
              (execute_steps-answered o run_id input s ss cur c h)
            ∙ rows_kept ss y (after o run_id s x y c)
            ∙ unfold start_step complete_step in refl
        | inr (m, h) ↦
            let (c', t, q, d, v) = execute_steps-failed o run_id input s ss cur c m h in
            ap (λ (r : Result Text × Call). beside_steps r.1.world.db) q
            ∙ ap (λ (b : Db). beside_steps b) d
            ∙ unfold start_step in refl
      ]

  saved_kept :
      (ss : List WorkflowStep) (cur : Text) (c : Call)
      → (run_from o run_id input ss cur c).1.world.saved ≡ c.world.saved
  saved_kept [] cur c = unfold execute_steps in refl
  saved_kept (s ∷ ss) cur c =
      let x = previous_output c.context s.step_order input in
      elim (Reply-cases (answer o (before o run_id s x c).world.calls s x)) [
        | inl (y, h) ↦
            ap (λ (r : Result Text × Call). r.1.world.saved)
              (execute_steps-answered o run_id input s ss cur c h)
            ∙ saved_kept ss y (after o run_id s x y c)
            ∙ unfold start_step complete_step in refl
        | inr (m, h) ↦
            let (c', t, q, d, v) = execute_steps-failed o run_id input s ss cur c m h in
            ap (λ (r : Result Text × Call). r.1.world.saved) q ∙ v ∙ unfold start_step in refl
      ]

module _ (o : Outside) (run_id : ℕ) (input : Text) (s : WorkflowStep) (ss : List WorkflowStep)
    (c : Call) where
  abbrev executed : Result Text × Call
  executed = execute o (callbacks o run_id) input (s ∷ ss) c

  pub execute_keeps_rows :
      (beside_steps executed.1.world.db ≡ beside_steps c.world.db)
      × (executed.1.world.saved ≡ c.world.saved)
  unfolding execute
  execute_keeps_rows = (
    rows_kept o run_id input (sort_steps (s ∷ ss)) input c,
    saved_kept o run_id input (sort_steps (s ∷ ss)) input c,
  )
