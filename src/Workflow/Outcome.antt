-- ===== src/Workflow/Outcome.antt =====
-- What `run_workflow` returns and what it leaves in `workflow_runs`.
use mathlib.Core.Path.{subst}
use aiplatform.Shared.{
  ℕ, suc, ◌≡◌, refl, sym, ap, ◌∙◌, inl, inr, false, Option, none, some, List, [], ◌∷◌, ◌++◌, Text,
  ◌==◌, ==-refl, first_where, All, update_where-append, first_where-update_where,
}
use aiplatform.Errors.{Failure, Message, ErrorClass}
use aiplatform.Exec.{Result, ok, err}
use aiplatform.Models.{WorkflowStep, WorkflowRun, WorkflowSchedule, WorkflowRunStatus, MessageRole}
use aiplatform.Clock.{timestamp}
use aiplatform.State.{Db, World, Outside}
use aiplatform.Workflow.Call.{Call}
use aiplatform.Workflow.Executor.{execute}
use aiplatform.Workflow.Session.{WorkflowRunRequest, add_message}
use aiplatform.Workflow.RunService.{create_run, mark_running, mark_completed, mark_failed, new_run}
use aiplatform.Workflow.Execution.{
  WorkflowRunResponse, run_in_session, callbacks, start_call, conclude,
}
use aiplatform.Workflow.Steps.{answer, Reply-cases}
use aiplatform.Workflow.Kept.{execute_keeps_rows}
use aiplatform.Workflow.Pipeline.{pipeline, IsGapless, execute-pipeline}

-- No run has the next identifier.
abbrev pub RunsFresh : Db → Type 0
RunsFresh d = All (λ r. (r.id == d.next_id) ≡ false) d.workflow_runs

abbrev pub find_run : ℕ → Db → Option WorkflowRun
find_run id d = first_where (λ r. r.id == id) d.workflow_runs

-- The row of a run that has ended.
abbrev pub EndsAs : WorkflowRunStatus → Option Text → Option Message → Option WorkflowRun → Type 0
EndsAs status result error none = ⊥
EndsAs status result error (some r) =
    (r.status ≡ status) × (r.result ≡ result) × (r.error_message ≡ error)

-- A run's response, its row, and what its end says of both.
abbrev pub Ends : ℕ → Result Text → Result WorkflowRunResponse × World → Type 0
Ends id (ok y) r =
    (r.0 ≡ ok (record { workflow_run_id = id; status = WorkflowRunStatus.completed; result = y }))
    × EndsAs WorkflowRunStatus.completed (some y) none (find_run id r.1.db)
Ends id (err e) r =
    (r.0 ≡ err e) × EndsAs WorkflowRunStatus.failed none (some e.message) (find_run id r.1.db)

module _ (o : Outside) (workflow_id session_id : ℕ) (req : WorkflowRunRequest) (w : World) where
  abbrev pub begun : World
  begun = mark_running o w.db.next_id (
      add_message session_id none MessageRole.user req.input
        (create_run workflow_id session_id req.input req.user_id w).1)

  abbrev running_row : WorkflowRun
  running_row = record (new_run w.db.next_id workflow_id session_id req.input req.user_id) {
    status = WorkflowRunStatus.running;
    started_at = some (timestamp (o.now w.readings));
  }

  begun_runs : RunsFresh w.db → begun.db.workflow_runs ≡ w.db.workflow_runs ++ running_row ∷ []
  unfolding create_run mark_running add_message
  begun_runs fresh =
      update_where-append (λ r. r.id == w.db.next_id) _ w.db.workflow_runs
        (new_run w.db.next_id workflow_id session_id req.input req.user_id) fresh
        (==-refl w.db.next_id)

  -- Marking the row of the run, wherever the executor has left the rest of the state.
  completed_row_found :
      (v : World) (y : Text)
      → RunsFresh w.db
      → v.db.workflow_runs ≡ w.db.workflow_runs ++ running_row ∷ []
      → EndsAs WorkflowRunStatus.completed
          (some y)
          none
          (find_run w.db.next_id (mark_completed o w.db.next_id y v).db)
  unfolding mark_completed
  completed_row_found v y fresh e = rw e (
      rw
        (first_where-update_where (λ r. r.id == w.db.next_id)
          (λ r. record r {
            status = WorkflowRunStatus.completed;
            result = some y;
            completed_at = some (timestamp (o.now v.readings));
          })
          w.db.workflow_runs running_row fresh (==-refl w.db.next_id) (==-refl w.db.next_id))
        (refl, refl, refl))

  failed_row_found :
      (v : World) (m : Message)
      → RunsFresh w.db
      → v.db.workflow_runs ≡ w.db.workflow_runs ++ running_row ∷ []
      → EndsAs WorkflowRunStatus.failed none
          (some m)
          (find_run w.db.next_id (mark_failed o w.db.next_id m v).db)
  unfolding mark_failed
  failed_row_found v m fresh e = rw e (
      rw
        (first_where-update_where (λ r. r.id == w.db.next_id)
          (λ r. record r {
            status = WorkflowRunStatus.failed;
            error_message = some m;
            completed_at = some (timestamp (o.now v.readings));
          })
          w.db.workflow_runs running_row fresh (==-refl w.db.next_id) (==-refl w.db.next_id))
        (refl, refl, refl))

  -- The executor's part: it ends as the pipeline does, and keeps the rows of runs.
  conclude-Ends :
      (r : Result Text) (c : Call)
      → RunsFresh w.db
      → c.world.db.workflow_runs ≡ w.db.workflow_runs ++ running_row ∷ []
      → ((e : Failure) → r ≡ err e → e.kind ≡ ErrorClass.runtime_execution_failed)
      → Ends w.db.next_id r (conclude o w.db.next_id session_id (r, c))
  unfolding conclude add_message
  conclude-Ends (ok y) c fresh e k = (
    refl,
    completed_row_found (add_message session_id none MessageRole.assistant y c.world) y fresh e,
  )
  conclude-Ends (err x) c fresh e k =
      (refl, rw (k x refl) (failed_row_found c.world x.message fresh e))

pub pipeline_error :
    (o : Outside) (n : ℕ) (ss : List WorkflowStep) (x : Text) (e : Failure)
    → pipeline o n ss x ≡ err e
    → e.kind ≡ ErrorClass.runtime_execution_failed
unfolding pipeline
pipeline_error o n [] x e h = cc
pipeline_error o n (s ∷ ss) x e h = elim (Reply-cases (answer o n s x)) [
  | inl (y, a) ↦ pipeline_error o (suc n) ss y e (rw a at h)
  | inr (m, a) ↦ cc (rw a at h)
]

module _ (o : Outside) (workflow_id session_id : ℕ) (req : WorkflowRunRequest) (s : WorkflowStep)
    (ss : List WorkflowStep) (w : World) where
  -- With steps that are numbered from 0 without a gap, a run in its session ends as the pipeline
  -- of its steps does: with the last output, a response and a row that is COMPLETED and holds
  -- that output, or with the error of the first step that fails, which is raised, and a row that
  -- is FAILED and holds its message. No earlier row may have the identifier of the new one.
  pub run_in_session-Ends :
      IsGapless 0 (s ∷ ss)
      → RunsFresh w.db
      → Ends w.db.next_id
          (pipeline o w.calls (s ∷ ss) req.input)
          (run_in_session o workflow_id req (s ∷ ss) session_id w)
  run_in_session-Ends gapless fresh =
      let c = start_call (begun o workflow_id session_id req w) in
      let ex = execute o (callbacks o w.db.next_id) req.input (s ∷ ss) c in
      let q : ex.0 ≡ pipeline o w.calls (s ∷ ss) req.input =
        execute-pipeline o w.db.next_id req.input s ss c gapless
        ∙ ap (λ (n : ℕ). pipeline o n (s ∷ ss) req.input)
            (unfold create_run mark_running add_message in refl) in
      subst
        (λ (r : Result Text).
          Ends w.db.next_id r (run_in_session o workflow_id req (s ∷ ss) session_id w))
        q
        (unfold run_in_session in
          conclude-Ends o workflow_id session_id req w ex.0 ex.1 fresh
            (ap (λ (x : List WorkflowRun × List WorkflowSchedule). x.0)
                (execute_keeps_rows o w.db.next_id req.input s ss c).0
              ∙ begun_runs o workflow_id session_id req w fresh)
            (λ e h. pipeline_error o w.calls (s ∷ ss) req.input e (sym q ∙ h)))
