-- ===== src/Webhook/Examples.antt =====
-- A signed call of a webhook, and the theorem applied to it.
use aiplatform.Shared.{◌≡◌, refl, true, false, none, some, [], ◌∷◌, Text, codes}
use aiplatform.Exec.{ok, err}
use aiplatform.Models.{WorkflowWebhook, WorkflowRunStatus, Json, Fields}
use aiplatform.State.{Outside, World}
use aiplatform.State.Examples.{empty_db, blank, echo}
use aiplatform.Workflow.Examples.{drafting, draft}
use aiplatform.Webhook.Input.{extract_input}
use aiplatform.Webhook.Service.{trigger, wrong_signature}
use aiplatform.Webhook.Input.{not_ascii}

abbrev hook : WorkflowWebhook
hook = record {
  id = 60;
  workflow_id = 1;
  webhook_token = codes "token";
  secret = some (codes "key");
  input_field_path = some (codes "value");
  allowed_source_ips = some (codes "10.0.0.1" ∷ []);
  user_id = none;
  enabled = true;
  deleted = false;
}

abbrev hooked : World
hooked = blank (record empty_db {
  workflows = drafting ∷ [];
  workflow_steps = draft ∷ [];
  workflow_webhooks = hook ∷ [];
})

-- The digest of the example environment is the key before the body.
abbrev signature : Text
signature = codes "keyhi"

-- A nested field, and a path that ends in the middle of nothing.
nested :
    extract_input echo
      (Fields.field
        (codes "data")
        (Json.object (Fields.field (codes "text") (Json.string (codes "hi")) Fields.no_fields))
        Fields.no_fields)
      (some (codes "data.text"))
    ≡ codes "hi"
unfolding extract_input
nested = refl

signed_call :
    (trigger echo (codes "token") (codes "hi") (some (codes "10.0.0.1")) (some signature) hooked).0
    ≡ ok (record {
      workflow_run_id = 101;
      status = WorkflowRunStatus.completed;
      result = codes "hi";
    })
unfolding trigger
signed_call = refl

unsigned_call :
    trigger echo (codes "token") (codes "hi") (some (codes "10.0.0.1")) none hooked
    ≡ (err wrong_signature, hooked)
unfolding trigger
unsigned_call = refl

-- A header that is not ASCII.
foreign_call :
    trigger echo (codes "token") (codes "hi") (some (codes "10.0.0.1")) (some (200 ∷ [])) hooked
    ≡ (err not_ascii, hooked)
unfolding trigger
foreign_call = refl

-- A digest that is hexadecimal.
abbrev hexed : Outside
hexed = record echo { hmac_sha256 = λ secret body. codes "2f" }
