-- ===== src/Engine/Triggers.antt =====
-- app/workflowskill/service.py: a call of the tool that triggers a workflow, in a chain of nested
-- triggers (app/core/workflow_trigger_context.py).
use aiplatform.Shared.{
  ℕ, ◌≡◌, ◌≢◌, ◌≤◌, ◌⊎◌, inl, inr, refl, ap, ◌∙◌, true, false, leb, min, Option, none, some, [],
  ◌∷◌, ◌++◌, Text, codes, Bool-cases, arith,
}
use aiplatform.Errors.{Message, Failure, text, about, raised, ErrorClass}
use aiplatform.Exec.{Result, ok, err, Exec}
use aiplatform.State.{World, Outside}
use aiplatform.Workflow.Session.{WorkflowRunRequest}
use aiplatform.Workflow.Execution.{WorkflowRunResponse, run_workflow}
use aiplatform.Workflow.Transaction.{run_workflow_keeps_saved}
use aiplatform.Workflow.Trigger.{CallChain, enter_workflow_trigger, max_global_depth, is_visited}
use aiplatform.Engine.Tools.{TriggerTool}

-- `result["result"] or "(workflow completed with empty result)"`
abbrev pub result_or : Text → Text
result_or [] = codes "(workflow completed with empty result)"
result_or (c ∷ t) = c ∷ t

module _ (o : Outside) (shown : Message → Text) (parse_uuid : Text → Option ℕ) where
  -- What the model is told of a RuntimeExecutionError.
  abbrev pub refusal : TriggerTool → Message → Text
  refusal t m = codes "Không thể chạy workflow '" ++ (t.workflow_code ++ (codes "': " ++ shown m))

  -- `except RuntimeExecutionError`; other exceptions pass by.
  unfoldable pub contain : TriggerTool → ErrorClass → Message → Result Text
  contain t ErrorClass.runtime_execution_failed m = ok (refusal t m)
  contain t k m = err (raised k m)

  abbrev pub answer_trigger : TriggerTool → Result WorkflowRunResponse × World → Result Text × World
  answer_trigger t (ok r, w) = (ok (result_or r.result), w)
  answer_trigger t (err x, w) = (contain t x.kind x.message, w)

  -- `uuid.UUID(session_id) if session_id else None`; the outer `none` is a ValueError.
  abbrev pub session_of : Text → Option (Option ℕ)
  session_of [] = some none
  session_of (c ∷ t) = elim (parse_uuid (c ∷ t)) [ none ↦ none | some id ↦ some (some id) ]

  -- Inside of the `with` block.
  unfoldable pub run_triggered : TriggerTool → Text → Option (Option ℕ) → Exec World Text
  unfolding run_workflow contain
  run_triggered t input none w =
      (err (raised ErrorClass.other (text "ValueError: badly formed hexadecimal UUID string")), w)
  run_triggered t input (some session_id) w = answer_trigger t (
      run_workflow o t.workflow_id
        (record { input = input; session_id = session_id; user_id = t.user_id }) w)

  abbrev pub enter : TriggerTool → Text → Result CallChain → Exec World Text
  enter t input (err x) w = (contain t x.kind x.message, w)
  enter t input (ok chain) w = run_triggered t input (session_of t.session_id) w

  unfoldable pub trigger_workflow : TriggerTool → Text → CallChain → Exec World Text
  unfolding run_triggered enter_workflow_trigger contain
  trigger_workflow t input chain w =
      enter t input (enter_workflow_trigger t.workflow_code t.max_depth chain) w

  -- Where the guard stops a trigger: at the skill's depth, at the platform's, or at a workflow that
  -- one of the triggers around this one is for.
  abbrev pub IsStopped : TriggerTool → CallChain → Type 0
  IsStopped t c =
      (t.max_depth ≤ c.depth)
      ⊎ (max_global_depth ≤ c.depth)
      ⊎ (is_visited t.workflow_code c.visited ≡ true)

  contain-kind :
      (t : TriggerTool) (k : ErrorClass) (m : Message) (x : Failure)
      → contain t k m ≡ err x
      → x.kind ≢ ErrorClass.runtime_execution_failed
  unfolding contain
  contain-kind t k m x h = ground arith

  unstopped :
      (t : TriggerTool) (c : CallChain)
      → leb (min t.max_depth max_global_depth) c.depth ≡ false
      → is_visited t.workflow_code c.visited ≡ false
      → ¬ (IsStopped t c)
  unstopped t c e v h = ground (arith, e, v, h)

  answer-kind :
      (t : TriggerTool) (r : Result WorkflowRunResponse × World) (x : Failure)
      → (answer_trigger t r).0 ≡ err x
      → x.kind ≢ ErrorClass.runtime_execution_failed
  answer-kind t (ok r, w) x h = cc h
  answer-kind t (err y, w) x h = contain-kind t y.kind y.message x h

  answer-saved :
      (t : TriggerTool) (r : Result WorkflowRunResponse × World)
      → (answer_trigger t r).1.saved ≡ r.1.saved
  answer-saved t (ok r, w) = refl
  answer-saved t (err y, w) = refl

  stopped :
      (t : TriggerTool) (c : CallChain)
      → IsStopped t c
      → (m : Message) × (enter_workflow_trigger t.workflow_code t.max_depth c
          ≡ err (raised ErrorClass.runtime_execution_failed m))
  unfolding enter_workflow_trigger
  stopped t c h = elim (Bool-cases (leb (min t.max_depth max_global_depth) c.depth)) [
    | inl e ↦ (about "Workflow trigger depth limit reached" c.depth, rw e refl)
    | inr e ↦ elim (Bool-cases (is_visited t.workflow_code c.visited)) [
      | inl v ↦ (text "Cycle detected", rw (e, v) refl)
      | inr v ↦ absurd (unstopped t c e v h)
    ]
  ]

  run_triggered-kind :
      (t : TriggerTool) (input : Text) (s : Option (Option ℕ)) (w : World) (x : Failure)
      → (run_triggered t input s w).0 ≡ err x
      → x.kind ≢ ErrorClass.runtime_execution_failed
  unfolding run_triggered
  run_triggered-kind t input none w x h = cc h
  run_triggered-kind t input (some s) w x h =
      answer-kind t
        (run_workflow o t.workflow_id
          (record { input = input; session_id = s; user_id = t.user_id }) w)
        x h

  run_triggered-saved :
      (t : TriggerTool) (input : Text) (s : Option (Option ℕ)) (w : World)
      → (run_triggered t input s w).1.saved ≡ w.saved
  unfolding run_triggered
  run_triggered-saved t input none w = refl
  run_triggered-saved t input (some s) w =
      let req : WorkflowRunRequest = record {
        input = input;
        session_id = s;
        user_id = t.user_id;
      } in
      answer-saved t (run_workflow o t.workflow_id req w)
      ∙ run_workflow_keeps_saved o t.workflow_id req w

  enter-kind :
      (t : TriggerTool) (input : Text) (r : Result CallChain) (w : World) (x : Failure)
      → (enter t input r w).0 ≡ err x
      → x.kind ≢ ErrorClass.runtime_execution_failed
  enter-kind t input (err y) w x h = contain-kind t y.kind y.message x h
  enter-kind t input (ok c) w x h = run_triggered-kind t input (session_of t.session_id) w x h

  enter-saved :
      (t : TriggerTool) (input : Text) (r : Result CallChain) (w : World)
      → (enter t input r w).1.saved ≡ w.saved
  enter-saved t input (err y) w = refl
  enter-saved t input (ok c) w = run_triggered-saved t input (session_of t.session_id) w

  -- A call of the tool never raises the error of a failed run or of the guard, and commits nothing.
  -- Where the depth of the skill or of the platform is reached, or the workflow was triggered already
  -- by a call of the tool around this one, it answers with a refusal and changes nothing.
  pub trigger_workflow-IsContained :
      (t : TriggerTool) (input : Text) (c : CallChain) (w : World)
      → ((x : Failure)
          → (trigger_workflow t input c w).0 ≡ err x
          → x.kind ≢ ErrorClass.runtime_execution_failed)
        × ((trigger_workflow t input c w).1.saved ≡ w.saved)
        × (IsStopped t c → (m : Message) × (trigger_workflow t input c w ≡ (ok (refusal t m), w)))
  unfolding trigger_workflow
  trigger_workflow-IsContained t input c w = (
    enter-kind t input (enter_workflow_trigger t.workflow_code t.max_depth c) w,
    enter-saved t input (enter_workflow_trigger t.workflow_code t.max_depth c) w,
    λ h. let (m, e) = stopped t c h in (m, ap (λ (r : Result CallChain). enter t input r w) e),
  )
