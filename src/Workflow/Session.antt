-- ===== src/Workflow/Session.antt =====
-- `WorkflowExecutionService._get_or_create_session`, the rows of `chat_sessions` and
-- `chat_messages`, and the lookups of a workflow and its steps.
use aiplatform.Shared.{
  ℕ, suc, false, ◌&&◌, not, Option, none, some, List, [], ◌∷◌, ◌++◌, Text, codes, ◌==◌, same_name,
  first_where, select, if◌then◌else◌,
}
use aiplatform.Errors.{Failure, about, raised, ErrorClass}
use aiplatform.Exec.{ok, err, Exec, or_raise, gets, ◌>>=◌}
use aiplatform.Models.{Workflow, WorkflowStep, ChatSession, MessageRole}
use aiplatform.State.{Db, World, change}
use aiplatform.Workflow.Executor.{sort_steps}

-- `BaseRepository.get`: the row with the id, unless it is soft-deleted.
unfoldable pub get_workflow : ℕ → Db → Option Workflow
get_workflow id d = first_where (λ w. w.id == id && not w.deleted) d.workflows

unfoldable pub get_session : ℕ → Db → Option ChatSession
get_session id d = first_where (λ s. s.id == id && not s.deleted) d.chat_sessions

-- `WorkflowStepRepository.list_by_workflow`, in ascending `step_order`.
unfoldable pub list_by_workflow : ℕ → Db → List WorkflowStep
list_by_workflow id d = sort_steps (select (λ s. s.workflow_id == id) d.workflow_steps)

-- `BaseRepository.create` of a session with a given id: the primary key refuses an id that a row
-- has, a soft-deleted row too.
unfoldable pub insert_session : ChatSession → Exec World ChatSession
insert_session s w = elim (first_where (λ r. r.id == s.id) w.db.chat_sessions) [
  | none ↦ (ok s, change (λ d. record d { chat_sessions = d.chat_sessions ++ s ∷ [] }) w)
  | some _ ↦ (err (raised ErrorClass.other (about "duplicate key" s.id)), w)
]

-- The same with a new id.
unfoldable pub insert_new_session : (ℕ → ChatSession) → Exec World ChatSession
insert_new_session f w =
    let s = f w.db.next_id in
    (
      ok s,
      change (λ d. record d { next_id = suc d.next_id; chat_sessions = d.chat_sessions ++ s ∷ [] })
          w,
    )

unfoldable pub add_message : ℕ → Option ℕ → MessageRole → Text → World → World
add_message session_id run_id role content = change λ d. record d {
  chat_messages =
      d.chat_messages
      ++ (record { session_id = session_id; run_id = run_id; role = role; content = content }) ∷ [];
}

-- app/schemas/workflow_run.py
pub record WorkflowRunRequest : Type 0 where
  pub input : Text
  pub session_id : Option ℕ
  pub user_id : Option Text

abbrev pub session_of : Workflow → Option Text → ℕ → ChatSession
session_of wf user_id id = record {
  id = id;
  agent_os_id = wf.agent_os_id;
  team_id = wf.team_id;
  agent_id = none;
  user_id = user_id;
  title = codes "Workflow: " ++ wf.name;
  deleted = false;
}

-- A session that exists is continued by the user that it belongs to, and by nobody else.
abbrev pub continue_session : Option Text → ChatSession → Exec World ChatSession
continue_session user_id s w = if same_name s.user_id user_id then (ok s, w) else (
  err (raised ErrorClass.not_found (about "ChatSession not found for this user_id" s.id)),
  w,
)

unfoldable pub session_for : Workflow → WorkflowRunRequest → Option ℕ → Exec World ChatSession
session_for wf req none w = insert_new_session (session_of wf req.user_id) w
session_for wf req (some id) w = elim (get_session id w.db) [
  | some s ↦ continue_session req.user_id s w
  | none ↦ insert_session (session_of wf req.user_id id) w
]

abbrev pub missing_workflow : ℕ → Failure
missing_workflow id = raised ErrorClass.not_found (about "Workflow not found" id)

unfoldable pub get_or_create_session : ℕ → WorkflowRunRequest → Exec World ChatSession
unfolding get_workflow session_for get_session insert_session insert_new_session
get_or_create_session workflow_id req = do
  found ← gets (λ w. get_workflow workflow_id w.db)
  wf ← or_raise found (missing_workflow workflow_id)
  session_for wf req req.session_id
