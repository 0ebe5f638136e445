-- ===== src/Workflow/Ownership.antt =====
-- Who may continue a session.
use aiplatform.Shared.{
  ℕ, ◌≡◌, ◌&&◌, not, Option, none, some, Text, arith, ◌==◌, same_name, same_name-eq, first_where,
  first_where-holds, Bool-cases, Option-cases, ap, sym, ◌∙◌, inl, inr,
}
use aiplatform.Exec.{ok}
use aiplatform.Models.{Workflow, ChatSession}
use aiplatform.State.{Db, World}
use aiplatform.Workflow.Session.{
  WorkflowRunRequest, get_workflow, get_session, get_or_create_session, insert_session,
  insert_new_session, session_for, session_of, continue_session,
}

pub continue_session_owner :
    (user : Option Text) (t s : ChatSession) (w : World)
    → (continue_session user t w).0 ≡ ok s
    → (s.user_id ≡ user) × (s ≡ t)
continue_session_owner user t s w h = elim (Bool-cases (same_name t.user_id user)) [
  | inl e ↦
      let q : t ≡ s = cc (rw e at h) in
      (ap (λ (x : ChatSession). x.user_id) (sym q) ∙ same_name-eq t.user_id user e, sym q)
  | inr e ↦ cc (rw e at h)
]

pub insert_session_same : (t s : ChatSession) (w : World) → (insert_session t w).0 ≡ ok s → s ≡ t
unfolding insert_session
insert_session_same t s w h =
    elim (Option-cases (first_where (λ r. r.id == t.id) w.db.chat_sessions)) [
      | inl e ↦ (let q : t ≡ s = cc (rw (insert_session, e) at h) in sym q)
      | inr (x, e) ↦ cc (rw (insert_session, e) at h)
    ]

-- The identifier that a session has if the call names one.
abbrev pub Requested : Option ℕ → ChatSession → Type 0
Requested none s = Unit
Requested (some id) s = s.id ≡ id

pub get_session_id : (id : ℕ) (d : Db) (s : ChatSession) → get_session id d ≡ some s → s.id ≡ id
unfolding get_session
get_session_id id d s h =
    let q = first_where-holds (λ r. r.id == id && not r.deleted) d.chat_sessions s h in
    ground (arith, q)

session_for_owner :
    (wf : Workflow) (req : WorkflowRunRequest) (id : Option ℕ) (w : World) (s : ChatSession)
    → (session_for wf req id w).0 ≡ ok s
    → (s.user_id ≡ req.user_id) × Requested id s
unfolding session_for insert_new_session get_session
session_for_owner wf req none w s h =
    let q : session_of wf req.user_id w.db.next_id ≡ s = cc h in
    (ap (λ (x : ChatSession). x.user_id) (sym q), tt)
session_for_owner wf req (some id) w s h = elim (Option-cases (get_session id w.db)) [
  | inl e ↦
      let q = insert_session_same (session_of wf req.user_id id) s w (rw (session_for, e) at h) in
      (ap (λ (x : ChatSession). x.user_id) q, ap (λ (x : ChatSession). x.id) q)
  | inr (t, e) ↦
      let q = continue_session_owner req.user_id t s w (rw (session_for, e) at h) in
      (q.0, ap (λ (x : ChatSession). x.id) q.1 ∙ get_session_id id w.db t e)
]

-- A workflow call that continues or creates a session always gets one that belongs to its own
-- user, and the one with the requested identifier, if the call names one.
pub get_or_create_session_owner :
    (workflow_id : ℕ) (req : WorkflowRunRequest) (w : World) (s : ChatSession)
    → (get_or_create_session workflow_id req w).0 ≡ ok s
    → (s.user_id ≡ req.user_id) × Requested req.session_id s
unfolding get_or_create_session
get_or_create_session_owner id req w s h = elim (Option-cases (get_workflow id w.db)) [
  | inl e ↦ cc (rw e at h)
  | inr (wf, e) ↦ session_for_owner wf req req.session_id w s (rw e at h)
]
