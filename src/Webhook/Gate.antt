-- ===== src/Webhook/Gate.antt =====
-- Who may trigger a webhook.
use aiplatform.Shared.{◌≡◌, ◌⊎◌, Bool, true, false, Option, none, some, List, [], ◌∷◌, Text, Member}
use aiplatform.Errors.{Failure, ErrorClass}
use aiplatform.Exec.{Result, ok, err}
use aiplatform.Models.{WorkflowWebhook}
use aiplatform.State.{World, Outside}
use aiplatform.Workflow.Execution.{WorkflowRunResponse, run_workflow}
use aiplatform.Webhook.Input.{is_ascii, not_ascii}
use aiplatform.Webhook.Service.{get_by_token, request_of, trigger}

-- No list, an empty one, or one that names the caller's address.
abbrev pub AllowsIp : Option (List Text) → Option Text → Type 0
AllowsIp none ip = Unit
AllowsIp (some []) ip = Unit
AllowsIp (some (x ∷ xs)) none = ⊥
AllowsIp (some (x ∷ xs)) (some t) = Member t (x ∷ xs)

-- No secret, an empty one, or one under which the header is the body's digest.
abbrev pub IsSigned : Outside → Option Text → Text → Option Text → Type 0
IsSigned o none body header = Unit
IsSigned o (some []) body header = Unit
IsSigned o (some (c ∷ cs)) body none = ⊥
IsSigned o (some (c ∷ cs)) body (some []) = ⊥
IsSigned o (some (c ∷ cs)) body (some (d ∷ ds)) = o.hmac_sha256 (c ∷ cs) body ≡ d ∷ ds

-- Python's documentation of `hexdigest`: hexadecimal digits.
abbrev pub IsHex : (Text → Text → Text) → Type 0
IsHex digest = (secret body : Text) → is_ascii (digest secret body) ≡ true

-- A header that Python cannot compare with a digest.
abbrev pub IsForeign : Option Text → Type 0
IsForeign header = (t : Text) × (header ≡ some t) × (is_ascii t ≡ false)

module _ (o : Outside) (hex : IsHex o.hmac_sha256) (body : Text) where
  -- What the check of the signature gives: nothing to refuse, a refusal, or a TypeError.
  abbrev Checked : Option Text → Option Text → Result Bool → Type 0
  Checked secret header r =
      ((r ≡ ok false) × IsSigned o secret body header)
      ⊎ ((r ≡ ok true) × (¬ IsSigned o secret body header))
      ⊎ ((r ≡ err not_ascii) × IsForeign header × (¬ IsSigned o secret body header))

module _ (o : Outside) (token body : Text) (ip header : Option Text) (w : World) where
  -- The webhook of the token, enabled, for this address and this signature.
  abbrev pub Admits : WorkflowWebhook → Type 0
  Admits h =
      (get_by_token token w.db ≡ some h)
      × (h.enabled ≡ true)
      × AllowsIp h.allowed_source_ips ip
      × IsSigned o h.secret body header

  abbrev called : Result WorkflowRunResponse × World
  called = trigger o token body ip header w

  -- The two ways in which a call ends.
  abbrev pub Gated : Type 0
  Gated =
      ((h : WorkflowWebhook) × Admits h
        × (called ≡ run_workflow o h.workflow_id (request_of o h body) w))
      ⊎ ((e : Failure) × (called ≡ (err e, w))
          × ((e.kind ≡ ErrorClass.not_found)
              ⊎ (e.kind ≡ ErrorClass.validation_failed)
              ⊎ ((e ≡ not_ascii) × IsForeign header))
          × (¬ ((h : WorkflowWebhook) × Admits h)))
