-- ===== src/Workflow/Pipeline.antt =====
-- The executor is a pipeline: each step gets the output of the step before it.
use aiplatform.Shared.{
  ℕ, suc, ◌≡◌, refl, sym, ap, ◌∙◌, inl, inr, List, [], ◌∷◌, Text, arith, ==-refl,
}
use aiplatform.Exec.{Result, ok, err}
use aiplatform.Models.{WorkflowStep}
use aiplatform.State.{Outside, Reply, answered, failed}
use aiplatform.Workflow.Context.{WorkflowContext, previous_output, record_result}
use aiplatform.Workflow.Call.{Call}
use aiplatform.Workflow.Executor.{insert_step, sort_steps, execute_steps, execute, step_error}
use aiplatform.Workflow.Execution.{callbacks}
use aiplatform.Workflow.RunService.{start_step, complete_step}
use aiplatform.Workflow.Steps.{answer, stepped, Reply-cases}
use aiplatform.Workflow.Rounds.{
  before, after, run_from, execute_steps-answered, execute_steps-failed,
}

pass_on : Outside → ℕ → WorkflowStep → Reply → (Text → Result Text) → Result Text
pass_on o n s (answered y) rest = rest y
pass_on o n s (failed m) rest = err (step_error s m)

-- The specification: the steps in turn, from the `n`-th call of the engine, the first on the
-- input and each later one on the output before it; a failure ends it.
unfoldable pub pipeline : Outside → ℕ → List WorkflowStep → Text → Result Text
unfolding pass_on
pipeline o n [] x = ok x
pipeline o n (s ∷ ss) x = pass_on o n s (answer o n s x) (λ y. pipeline o (suc n) ss y)

-- Steps numbered from `k` on, without a gap, as `replace_steps` numbers them from 0.
abbrev pub IsGapless : ℕ → List WorkflowStep → Type 0
IsGapless k [] = Unit
IsGapless k (s ∷ ss) = (s.step_order ≡ k) × IsGapless (suc k) ss

module _ (o : Outside) (run_id : ℕ) (input : Text) where
  previous_of_next :
      (k : ℕ) (y : Text) (c : WorkflowContext)
      → previous_output (record_result k y c) (suc k) input ≡ y
  unfolding previous_output record_result
  previous_of_next k y c = rw ==-refl

  calls_before :
      (s : WorkflowStep) (x : Text) (c : Call) → (before o run_id s x c).world.calls ≡ c.world.calls
  unfolding start_step
  calls_before s x c = refl

  calls_after :
      (s : WorkflowStep) (x y : Text) (c : Call)
      → (after o run_id s x y c).world.calls ≡ suc c.world.calls
  unfolding start_step complete_step
  calls_after s x y c = refl

  execute_steps-pipeline :
      (k : ℕ) (ss : List WorkflowStep) (cur : Text) (c : Call)
      → IsGapless k ss
      → previous_output c.context k input ≡ cur
      → (run_from o run_id input ss cur c).0 ≡ pipeline o c.world.calls ss cur
  unfolding pipeline
  execute_steps-pipeline k [] cur c g p = unfold execute_steps in refl
  execute_steps-pipeline k (s ∷ ss) cur c (order, g) p =
      let x = previous_output c.context s.step_order input in
      let e : x ≡ cur = ap (λ (n : ℕ). previous_output c.context n input) order ∙ p in
      elim (Reply-cases (answer o c.world.calls s x)) [
        | inl (y, h) ↦
            ap (λ (r : Result Text × Call). r.0)
              (execute_steps-answered o run_id input s ss cur c
                (ap (λ (n : ℕ). answer o n s x) (calls_before s x c) ∙ h))
            ∙ execute_steps-pipeline (suc k) ss y (after o run_id s x y c) g (
                ap (λ (n : ℕ). previous_output (after o run_id s x y c).context (suc n) input)
                  (sym order)
                ∙ previous_of_next s.step_order y (stepped s (before o run_id s x c)).context)
            ∙ ap (λ (n : ℕ). pipeline o n ss y) (calls_after s x y c)
            ∙ rw (← e, h) refl
        | inr (m, h) ↦
            let (c', t, q, d, v) =
              execute_steps-failed o run_id input s ss cur c m
                (ap (λ (n : ℕ). answer o n s x) (calls_before s x c) ∙ h) in
            ap (λ (r : Result Text × Call). r.0) q ∙ rw (← e, h) refl
      ]

insert_step-first :
    (k : ℕ) (s : WorkflowStep) (ss : List WorkflowStep)
    → s.step_order ≡ k
    → IsGapless (suc k) ss
    → insert_step s ss ≡ s ∷ ss
unfolding insert_step
insert_step-first k s [] e g = refl
insert_step-first k s (t ∷ ss) e (h, g) = ground arith

pub sort_steps-IsGapless : (k : ℕ) (ss : List WorkflowStep) → IsGapless k ss → sort_steps ss ≡ ss
unfolding sort_steps
sort_steps-IsGapless k [] g = refl
sort_steps-IsGapless k (s ∷ ss) (e, g) =
    rw (sort_steps-IsGapless (suc k) ss g) (insert_step-first k s ss e g)

module _ (o : Outside) (run_id : ℕ) (input : Text) (s : WorkflowStep) (ss : List WorkflowStep)
    (c : Call) where
  abbrev executed : Result Text × Call
  executed = execute o (callbacks o run_id) input (s ∷ ss) c

  -- An execution of steps that are numbered from 0 without a gap returns what the pipeline
  -- returns: the last step's output, or the error of the first step that fails.
  pub execute-pipeline : IsGapless 0 (s ∷ ss) → executed.0 ≡ pipeline o c.world.calls (s ∷ ss) input
  unfolding execute
  execute-pipeline g =
      rw (sort_steps-IsGapless 0 (s ∷ ss) g) (
        execute_steps-pipeline o run_id input 0 (s ∷ ss) input c g (unfold previous_output in refl))
