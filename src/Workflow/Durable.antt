-- ===== src/Workflow/Durable.antt =====
-- What `run_workflow_stream` yields is committed.
use aiplatform.Shared.{
  ℕ, suc, ◌⊎◌, ◌≡◌, refl, not, Option, none, some, List, [], ◌∷◌, ◌++◌, Text, arith, Bool-cases,
  Option-cases, inl, inr, is_filled,
}
use aiplatform.Errors.{Message, about, raised, ErrorClass}
use aiplatform.Exec.{Result, ok, err, Exec, resume, raise_if, ◌>>=◌, ◌>>◌}
use aiplatform.Models.{WorkflowStep, WorkflowRunStep, MessageRole}
use aiplatform.State.{
  Db, World, Outside, StreamEvent, StreamItem, Sent, after_tools, committed, sent_after, calling,
  workflow_started, workflow_step_started, workflow_step_event,
}
use aiplatform.Workflow.Context.{WorkflowContext, previous_output, record_result, empty_context}
use aiplatform.Workflow.Executor.{sort_steps}
use aiplatform.Workflow.RunService.{
  create_run, mark_running, mark_completed, mark_failed, start_step, complete_step, fail_step,
  emit_event,
}
use aiplatform.Workflow.Session.{
  WorkflowRunRequest, get_workflow, list_by_workflow, get_or_create_session, add_message,
}
use aiplatform.Workflow.Streaming.{
  run_step_stream, output_piece, forward_step, end_step, stream_step, stream_steps, conclude_stream,
  stream_in_session, run_workflow_stream,
}

-- An event that a step's run gave.
abbrev pub IsStepEvent : StreamItem → Type 0
IsStepEvent (workflow_step_event run_id order payload) = Unit
IsStepEvent _ = ⊥

-- All that was yielded but the events of steps was committed, as far as the session held it then.
abbrev pub AllMarkersDurable : List Sent → Type 0
AllMarkersDurable [] = Unit
AllMarkersDurable (x ∷ xs) = (IsStepEvent x.item ⊎ (x.seen ≡ x.stored)) × AllMarkersDurable xs

abbrev pub AreMarkersDurable : World → Type 0
AreMarkersDurable w = AllMarkersDurable w.sent

sent_last :
    (xs : List Sent) (x : Sent)
    → AllMarkersDurable xs
    → IsStepEvent x.item ⊎ (x.seen ≡ x.stored)
    → AllMarkersDurable (xs ++ x ∷ [])
sent_last [] x h k = (k, tt)
sent_last (y ∷ ys) x (h, hs) k = (h, sent_last ys x hs k)

durable_as : (xs ys : List Sent) → xs ≡ ys → AllMarkersDurable ys → AllMarkersDurable xs
durable_as xs ys e h = rw e h

-- A marker that is sent behind a commit.
marked :
    (xs : List Sent) (i : StreamItem) (d : Db)
    → AllMarkersDurable xs
    → AllMarkersDurable (xs ++ (record { item = i; seen = d; stored = d }) ∷ [])
marked xs i d h = sent_last xs (record { item = i; seen = d; stored = d }) h (inr refl)

forward_step-AreMarkersDurable :
    (o : Outside) (run_id order k : ℕ) (es : List StreamEvent) (x : Text) (w : World)
    → AreMarkersDurable w
    → AreMarkersDurable (forward_step o run_id order k es x w).1
unfolding forward_step
forward_step-AreMarkersDurable o run_id order k [] x w h = h
forward_step-AreMarkersDurable o run_id order k (e ∷ es) x w h =
    forward_step-AreMarkersDurable o run_id order (suc k) es (x ++ output_piece e.payload)
      (sent_after (workflow_step_event run_id order e.payload) (after_tools o k w))
      (sent_last w.sent _ h (inl tt))

end_step-AreMarkersDurable :
    (o : Outside) (run_id : ℕ) (step : WorkflowStep) (row : WorkflowRunStep) (f : Option Message)
    (x : Text) (w : World)
    → AreMarkersDurable w
    → AreMarkersDurable (end_step o run_id step row f (x, w)).1
unfolding end_step complete_step fail_step emit_event
end_step-AreMarkersDurable o run_id step row none x w h = marked w.sent _ _ h
end_step-AreMarkersDurable o run_id step row (some m) x w h = marked w.sent _ _ h

stream_step-AreMarkersDurable :
    (o : Outside) (run_id : ℕ) (step : WorkflowStep) (x : Text) (w : World)
    → AreMarkersDurable w
    → AreMarkersDurable (stream_step o run_id step x w).1
unfolding stream_step start_step emit_event
stream_step-AreMarkersDurable o run_id step x w h =
    let (row, w₁) = start_step o run_id step x w in
    let w₂ =
      sent_after (workflow_step_started run_id step.step_order step.step_type) (committed w₁) in
    let events = run_step_stream o step x w₂ in
    let (y, v) = forward_step o run_id step.step_order 0 events.events [] (calling w₂) in
    end_step-AreMarkersDurable o run_id step row events.failure y v (
      forward_step-AreMarkersDurable o run_id step.step_order 0 events.events [] (calling w₂)
        (marked w.sent _ _ h))

resume-AreMarkersDurable :
    {A B : Type 0} (r : Result A) (f : A → Exec World B) (v : World)
    → AreMarkersDurable v
    → ((x : A) (u : World) → AreMarkersDurable u → AreMarkersDurable (f x u).1)
    → AreMarkersDurable (resume r f v).1
resume-AreMarkersDurable (ok x) f v h k = k x v h
resume-AreMarkersDurable (err e) f v h k = h

stream_steps-AreMarkersDurable :
    (o : Outside) (run_id : ℕ) (input : Text) (ss : List WorkflowStep) (c : WorkflowContext)
    (w : World)
    → AreMarkersDurable w
    → AreMarkersDurable (stream_steps o run_id input ss c w).1
unfolding stream_steps
stream_steps-AreMarkersDurable o run_id input [] c w h = h
stream_steps-AreMarkersDurable o run_id input (s ∷ ss) c w h =
    let (r, v) = stream_step o run_id s (previous_output c s.step_order input) w in
    resume-AreMarkersDurable r
      (λ x. stream_steps o run_id input ss (record_result s.step_order x c)) v
      (stream_step-AreMarkersDurable o run_id s (previous_output c s.step_order input) w h)
      (λ x u k.
        stream_steps-AreMarkersDurable o run_id input ss (record_result s.step_order x c) u k)

conclude_stream-AreMarkersDurable :
    (o : Outside) (run_id session_id : ℕ) (r : Result WorkflowContext) (w : World)
    → AreMarkersDurable w
    → AreMarkersDurable (conclude_stream o run_id session_id (r, w))
unfolding conclude_stream mark_completed mark_failed add_message emit_event
conclude_stream-AreMarkersDurable o run_id session_id (ok c) w h = marked w.sent _ _ h
conclude_stream-AreMarkersDurable o run_id session_id (err e) w h = marked w.sent _ _ h

stream_in_session-AreMarkersDurable :
    (o : Outside) (id : ℕ) (req : WorkflowRunRequest) (steps : List WorkflowStep) (session_id : ℕ)
    (w : World)
    → AreMarkersDurable w
    → AreMarkersDurable (stream_in_session o id req steps session_id w)
unfolding stream_in_session create_run mark_running add_message emit_event
stream_in_session-AreMarkersDurable o id req steps session_id w h =
    let (run, w₁) = create_run id session_id req.input req.user_id w in
    let w₂ = committed (add_message session_id none MessageRole.user req.input w₁) in
    let w₃ =
      sent_after (workflow_started run.id req.input) (committed (mark_running o run.id w₂)) in
    let (r, v) = stream_steps o run.id req.input (sort_steps steps) empty_context w₃ in
    conclude_stream-AreMarkersDurable o run.id session_id r v (
      stream_steps-AreMarkersDurable o run.id req.input (sort_steps steps) empty_context w₃
        (marked w.sent _ _ h))

session_sent :
    (id : ℕ) (req : WorkflowRunRequest) (w : World)
    → (get_or_create_session id req w).1.sent ≡ w.sent
unfolding get_or_create_session
session_sent id req w = ground arith

-- The part of `run_workflow_stream` behind its first two checks.
abbrev with_steps : Outside → ℕ → WorkflowRunRequest → List WorkflowStep → Exec World (Unit {0})
with_steps o id req steps = do
  raise_if (not (is_filled steps))
      (raised ErrorClass.runtime_execution_failed (about "Workflow has no steps configured" id))
  session ← get_or_create_session id req
  λ w. (ok tt, stream_in_session o id req steps session.id w)

with_steps-AreMarkersDurable :
    (o : Outside) (id : ℕ) (req : WorkflowRunRequest) (steps : List WorkflowStep) (w : World)
    → AreMarkersDurable w
    → AreMarkersDurable (with_steps o id req steps w).1
with_steps-AreMarkersDurable o id req [] w h = h
with_steps-AreMarkersDurable o id req (s ∷ ss) w h =
    let r = get_or_create_session id req w in
    resume-AreMarkersDurable r.0
      (λ session v. (ok tt, stream_in_session o id req (s ∷ ss) session.id v)) r.1
      (durable_as r.1.sent w.sent (session_sent id req w) h)
      (λ session v k. stream_in_session-AreMarkersDurable o id req (s ∷ ss) session.id v k)

-- Whatever a streaming workflow call yields, the start of the run or of a step, the end of a step,
-- failed or not, or the end of the run, the database has committed all that the session holds at
-- that moment. This is not claimed of the events inside of a step, which are yielded without a
-- commit while the session may hold what the step's tools wrote. The same is asked of what was
-- yielded before the call.
pub run_workflow_stream-AreMarkersDurable :
    (o : Outside) (id : ℕ) (req : WorkflowRunRequest) (w : World)
    → AreMarkersDurable w
    → AreMarkersDurable (run_workflow_stream o id req w).1
unfolding run_workflow_stream
run_workflow_stream-AreMarkersDurable o id req w h = elim (Option-cases (get_workflow id w.db)) [
  | inl e ↦ rw e h
  | inr (wf, e) ↦ elim (Bool-cases wf.enabled) [
    | inl on ↦ rw e (rw on (with_steps-AreMarkersDurable o id req (list_by_workflow id w.db) w h))
    | inr off ↦ rw e (rw off h)
  ]
]
