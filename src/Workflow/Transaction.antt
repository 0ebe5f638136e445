-- ===== src/Workflow/Transaction.antt =====
-- `run_workflow` and the transaction round it (app/db/session.py).
use aiplatform.Shared.{
  ℕ, ◌≡◌, refl, ap, ◌∙◌, inl, inr, not, List, [], ◌∷◌, Text, arith, Bool-cases, Option-cases,
  is_filled,
}
use aiplatform.Errors.{Failure, Message, ErrorClass, raised, about}
use aiplatform.Exec.{Result, ok, err, Exec, resume, raise_if, ◌>>=◌, ◌>>◌}
use aiplatform.Models.{WorkflowStep, WorkflowRun, WorkflowSchedule, ChatSession}
use aiplatform.State.{Db, World, Outside, in_session}
use aiplatform.Workflow.Call.{Call}
use aiplatform.Workflow.Executor.{execute}
use aiplatform.Workflow.Session.{
  WorkflowRunRequest, get_or_create_session, get_workflow, list_by_workflow,
}
use aiplatform.Workflow.RunService.{mark_completed, mark_failed}
use aiplatform.Workflow.Session.{add_message}
use aiplatform.Workflow.Execution.{
  WorkflowRunResponse, run_in_session, run_workflow, callbacks, start_call, conclude, on_failure,
}
use aiplatform.Workflow.Outcome.{begun}
use aiplatform.Workflow.Kept.{execute_keeps_rows}

-- What a workflow call leaves as it is: the committed rows, and the schedules.
abbrev pub aside : World → Db × List WorkflowSchedule
aside w = (w.saved, w.db.workflow_schedules)

session_keeps_aside :
    (id : ℕ) (req : WorkflowRunRequest) (w : World)
    → aside (get_or_create_session id req w).1 ≡ aside w
unfolding get_or_create_session
session_keeps_aside id req w = ground arith

on_failure_keeps_aside :
    (o : Outside) (id : ℕ) (k : ErrorClass) (m : Message) (w : World)
    → aside (on_failure o id k m w) ≡ aside w
unfolding mark_failed
on_failure_keeps_aside o id ErrorClass.runtime_execution_failed m w = refl
on_failure_keeps_aside o id _ m w = refl

conclude_keeps_aside :
    (o : Outside) (id sid : ℕ) (r : Result Text) (c : Call)
    → aside (conclude o id sid (r, c)).1 ≡ aside c.world
unfolding conclude mark_completed add_message
conclude_keeps_aside o id sid (ok y) c = refl
conclude_keeps_aside o id sid (err e) c = on_failure_keeps_aside o id e.kind e.message c.world

execute_keeps_aside :
    (o : Outside) (run_id : ℕ) (input : Text) (s : WorkflowStep) (ss : List WorkflowStep) (c : Call)
    → aside (execute o (callbacks o run_id) input (s ∷ ss) c).1.world ≡ aside c.world
execute_keeps_aside o run_id input s ss c =
    let (rows, saved) = execute_keeps_rows o run_id input s ss c in
    cc (ap (λ (x : List WorkflowRun × List WorkflowSchedule). x.1) rows, saved)

run_in_session_keeps_aside :
    (o : Outside) (id sid : ℕ) (req : WorkflowRunRequest) (s : WorkflowStep)
    (ss : List WorkflowStep) (w : World)
    → aside (run_in_session o id req (s ∷ ss) sid w).1 ≡ aside w
unfolding run_in_session
run_in_session_keeps_aside o id sid req s ss w =
    let c = start_call (begun o id sid req w) in
    let ex = execute o (callbacks o w.db.next_id) req.input (s ∷ ss) c in
    conclude_keeps_aside o w.db.next_id sid ex.0 ex.1
    ∙ execute_keeps_aside o w.db.next_id req.input s ss c

rest_keeps_aside :
    (o : Outside) (id : ℕ) (req : WorkflowRunRequest) (s : WorkflowStep) (ss : List WorkflowStep)
    (r : Result ChatSession) (v : World)
    → aside (resume r (λ session. run_in_session o id req (s ∷ ss) session.id) v).1 ≡ aside v
rest_keeps_aside o id req s ss (ok session) v =
    run_in_session_keeps_aside o id session.id req s ss v
rest_keeps_aside o id req s ss (err e) v = refl

-- The part of `run_workflow` behind its first two checks.
abbrev with_steps :
    Outside → ℕ → WorkflowRunRequest → List WorkflowStep → Exec World WorkflowRunResponse
with_steps o id req steps = do
  raise_if (not (is_filled steps))
      (raised ErrorClass.runtime_execution_failed (about "Workflow has no steps configured" id))
  session ← get_or_create_session id req
  run_in_session o id req steps session.id

steps_keep_aside :
    (o : Outside) (id : ℕ) (req : WorkflowRunRequest) (steps : List WorkflowStep) (w : World)
    → aside (with_steps o id req steps w).1 ≡ aside w
steps_keep_aside o id req [] w = refl
steps_keep_aside o id req (s ∷ ss) w =
    let r = get_or_create_session id req w in
    rest_keeps_aside o id req s ss r.0 r.1 ∙ session_keeps_aside id req w

pub run_workflow_keeps_aside :
    (o : Outside) (id : ℕ) (req : WorkflowRunRequest) (w : World)
    → aside (run_workflow o id req w).1 ≡ aside w
unfolding run_workflow
run_workflow_keeps_aside o id req w = elim (Option-cases (get_workflow id w.db)) [
  | inl e ↦ rw e refl
  | inr (wf, e) ↦ elim (Bool-cases wf.enabled) [
    | inl on ↦ rw e (rw on (steps_keep_aside o id req (list_by_workflow id w.db) w))
    | inr off ↦ rw e (rw off refl)
  ]
]

pub run_workflow_keeps_saved :
    (o : Outside) (id : ℕ) (req : WorkflowRunRequest) (w : World)
    → (run_workflow o id req w).1.saved ≡ w.saved
run_workflow_keeps_saved o id req w =
    ap (λ (x : Db × List WorkflowSchedule). x.0) (run_workflow_keeps_aside o id req w)

pub finish_rollback {ℓ} :
    {A : Type ℓ} (r : Result A) (v : World) (e : Failure)
    → (in_session (λ (_ : World). (r, v)) v).0 ≡ err e
    → (in_session (λ (_ : World). (r, v)) v).1.db ≡ v.saved
finish_rollback (ok a) v e h = cc
finish_rollback (err x) v e h = refl
