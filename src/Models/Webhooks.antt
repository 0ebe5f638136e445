-- ===== src/Models/Webhooks.antt =====
-- app/models/workflow_webhook.py, and a parsed JSON value.
use aiplatform.Shared.{ℕ, ◌≡◌, ◌⊎◌, Bool, Option, List, Text}

-- A number is kept as its literal.
mutual
  pub data Json : Type 0 where
    null : Json
    boolean : Bool → Json
    number : Text → Json
    string : Text → Json
    array : Items → Json
    object : Fields → Json

  pub data Items : Type 0 where
    no_items : Items
    item : Json → Items → Items

  pub data Fields : Type 0 where
    no_fields : Fields
    field : Text → Json → Fields → Fields

-- A value stands in an array.
abbrev pub InItems : Json → Items → Type 0
InItems v Items.no_items = ⊥
InItems v (Items.item u us) = (v ≡ u) ⊎ InItems v us

pub record WorkflowWebhook : Type 0 where
  pub id : ℕ
  pub workflow_id : ℕ
  pub webhook_token : Text
  pub secret : Option Text
  pub input_field_path : Option Text
  pub allowed_source_ips : Option (List Text)
  pub user_id : Option Text
  pub enabled : Bool
  pub deleted : Bool
