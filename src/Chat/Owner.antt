-- ===== src/Chat/Owner.antt =====
-- Who may continue a chat session.
use aiplatform.Shared.{ℕ, ◌≡◌, sym, ap, ◌∙◌, inl, inr, Option, none, some, Option-cases}
use aiplatform.Exec.{ok}
use aiplatform.Models.{ChatSession}
use aiplatform.State.{World}
use aiplatform.Workflow.Session.{get_session, insert_new_session}
use aiplatform.Workflow.Ownership.{
  continue_session_owner, insert_session_same, get_session_id, Requested,
}
use aiplatform.Chat.Opening.{ChatRequest, Served, session_row, session_with, get_or_create_session}

session_with_owner :
    (req : ChatRequest) (s : Served) (id : Option ℕ) (w : World) (x : ChatSession)
    → (session_with req s id w).0 ≡ ok x
    → (x.user_id ≡ req.user_id) × Requested id x
unfolding session_with insert_new_session
session_with_owner req s none w x h =
    let q : session_row req s w.db.next_id ≡ x = cc h in
    (ap (λ (y : ChatSession). y.user_id) (sym q), tt)
session_with_owner req s (some id) w x h = elim (Option-cases (get_session id w.db)) [
  | inl e ↦
      let q = insert_session_same (session_row req s id) x w (rw (session_with, e) at h) in
      (ap (λ (y : ChatSession). y.user_id) q, ap (λ (y : ChatSession). y.id) q)
  | inr (t, e) ↦
      let q = continue_session_owner req.user_id t x w (rw (session_with, e) at h) in
      (q.0, ap (λ (y : ChatSession). y.id) q.1 ∙ get_session_id id w.db t e)
]

-- A chat turn that continues or creates a session always gets one that belongs to its own user,
-- and the one with the requested identifier, if the request names one.
pub chat_session_owner :
    (req : ChatRequest) (s : Served) (w : World) (x : ChatSession)
    → (get_or_create_session req s w).0 ≡ ok x
    → (x.user_id ≡ req.user_id) × Requested req.session_id x
unfolding get_or_create_session
chat_session_owner req s w x h = session_with_owner req s req.session_id w x h
