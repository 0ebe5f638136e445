-- ===== src/Webhook/Service.antt =====
-- app/webhooks/service.py, `WorkflowWebhookService`, and
-- app/repositories/workflow_webhook_repository.py.
use aiplatform.Shared.{
  ℕ, suc, Bool, true, false, ◌&&◌, includes, not, Option, none, some, List, [], ◌∷◌, ◌++◌, Text,
  ◌==◌, same_text, is_filled, first_where, update_where,
}
use aiplatform.Errors.{Failure, about, text, raised, ErrorClass}
use aiplatform.Exec.{
  Result, ok, err, lift, Exec, pure, raise_if, or_raise, gets, modify, ◌>>=◌, ◌>>◌,
}
use aiplatform.Models.{WorkflowWebhook}
use aiplatform.State.{Db, World, Outside, change}
use aiplatform.Workflow.Session.{WorkflowRunRequest, get_workflow, missing_workflow}
use aiplatform.Workflow.Execution.{WorkflowRunResponse, run_workflow}
use aiplatform.Schedule.Service.{patched, patched_option}
use aiplatform.Webhook.Input.{verify_signature, extract_input, parse_body}

unfoldable pub get_by_token : Text → Db → Option WorkflowWebhook
get_by_token token d =
    first_where (λ h. same_text h.webhook_token token && not h.deleted) d.workflow_webhooks

-- `BaseRepository.get_or_404`
unfoldable pub get_webhook : ℕ → Exec World WorkflowWebhook
get_webhook id = do
  found ← gets (λ w. first_where (λ h. h.id == id && not h.deleted) w.db.workflow_webhooks)
  or_raise found (raised ErrorClass.not_found (about "WorkflowWebhook not found" id))

abbrev update_webhook : ℕ → (WorkflowWebhook → WorkflowWebhook) → World → World
update_webhook id f =
    change
      λ d. record d { workflow_webhooks = update_where (λ h. h.id == id) f d.workflow_webhooks }

-- app/schemas/workflow_webhook.py
pub record WorkflowWebhookCreate : Type 0 where
  pub secret : Option Text
  pub input_field_path : Option Text
  pub allowed_source_ips : Option (List Text)
  pub user_id : Option Text
  pub enabled : Bool

-- A field that was sent holds a value or None.
pub record WorkflowWebhookUpdate : Type 0 where
  pub secret : Option (Option Text)
  pub input_field_path : Option (Option Text)
  pub allowed_source_ips : Option (Option (List Text))
  pub user_id : Option (Option Text)
  pub enabled : Option (Option Bool)

abbrev new_webhook : Outside → ℕ → ℕ → WorkflowWebhookCreate → WorkflowWebhook
new_webhook o id workflow_id p = record {
  id = id;
  workflow_id = workflow_id;
  webhook_token = o.new_token id;
  secret = p.secret;
  input_field_path = p.input_field_path;
  allowed_source_ips = p.allowed_source_ips;
  user_id = p.user_id;
  enabled = p.enabled;
  deleted = false;
}

unfoldable pub create : Outside → ℕ → WorkflowWebhookCreate → Exec World WorkflowWebhook
unfolding get_workflow
create o workflow_id p = do
  found ← gets (λ w. get_workflow workflow_id w.db)
  or_raise found (missing_workflow workflow_id)
  id ← gets (λ w. w.db.next_id)
  modify (
      change (λ d. record d {
        next_id = suc d.next_id;
        workflow_webhooks = d.workflow_webhooks ++ new_webhook o id workflow_id p ∷ [];
      }))
  pure (new_webhook o id workflow_id p)

abbrev updated_webhook : WorkflowWebhookUpdate → WorkflowWebhook → WorkflowWebhook
updated_webhook p h = record h {
  secret = patched_option p.secret h.secret;
  input_field_path = patched_option p.input_field_path h.input_field_path;
  allowed_source_ips = patched_option p.allowed_source_ips h.allowed_source_ips;
  user_id = patched_option p.user_id h.user_id;
  enabled = patched p.enabled h.enabled;
}

unfoldable pub update : ℕ → WorkflowWebhookUpdate → Exec World WorkflowWebhook
unfolding get_webhook
update id p = do
  h ← get_webhook id
  modify (update_webhook h.id (updated_webhook p))
  pure (updated_webhook p h)

unfoldable pub delete : ℕ → Exec World (Unit {0})
unfolding get_webhook
delete id = do h ← get_webhook id; modify (update_webhook h.id (λ r. record r { deleted = true }))

-- `x in xs` on names; a missing address is in no list.
abbrev pub is_listed : Option Text → List Text → Bool
is_listed none xs = false
is_listed (some t) xs = includes t xs

-- `webhook.allowed_source_ips and source_ip not in webhook.allowed_source_ips`
unfoldable pub refuses_ip : Option (List Text) → Option Text → Bool
refuses_ip none ip = false
refuses_ip (some ips) ip = is_filled ips && not (is_listed ip ips)

abbrev pub negated : Result Bool → Result Bool
negated (ok b) = ok (not b)
negated (err e) = err e

-- `webhook.secret and not verify_signature(...)`
unfoldable pub refuses_signature : Outside → Option Text → Text → Option Text → Result Bool
unfolding verify_signature
refuses_signature o none raw_body header = ok false
refuses_signature o (some []) raw_body header = ok false
refuses_signature o (some (c ∷ cs)) raw_body header =
    negated (verify_signature o (c ∷ cs) raw_body header)

abbrev pub missing_webhook : Failure
missing_webhook = raised ErrorClass.not_found (text "Webhook not found or disabled")

abbrev pub request_of : Outside → WorkflowWebhook → Text → WorkflowRunRequest
request_of o h raw_body = record {
  input = extract_input o (parse_body o raw_body) h.input_field_path;
  session_id = none;
  user_id = h.user_id;
}

abbrev pub wrong_ip : Failure
wrong_ip = raised ErrorClass.validation_failed (text "Source IP not allowed for this webhook")

abbrev pub wrong_signature : Failure
wrong_signature = raised ErrorClass.validation_failed (text "Invalid or missing webhook signature")

unfoldable pub trigger :
    Outside → Text → Text → Option Text → Option Text → Exec World WorkflowRunResponse
unfolding get_by_token refuses_ip refuses_signature extract_input parse_body run_workflow
trigger o token raw_body source_ip signature_header = do
  found ← gets (λ w. get_by_token token w.db)
  h ← or_raise found missing_webhook
  raise_if (not h.enabled) missing_webhook
  raise_if (refuses_ip h.allowed_source_ips source_ip) wrong_ip
  refused ← lift (refuses_signature o h.secret raw_body signature_header)
  raise_if refused wrong_signature
  run_workflow o h.workflow_id (request_of o h raw_body)
