-- ===== src/Identity/Requests.antt =====
-- app/core/middleware.py and app/core/auth_context.py: what a request carries.
use aiplatform.Shared.{Bool, ◌||◌, Option, none, some, List, [], ◌∷◌, ◌++◌, Text, codes}
use aiplatform.Settings.{Settings}
use aiplatform.Identity.Keys.{Keycloak, JwksCache}
use aiplatform.Identity.Tokens.{VerifiedIdentity, is_set, verify_bearer_token}

pub record PropagatedAuth : Type 0 where
  pub authorization : Option Text
  pub api_key : Option Text
  pub correlation_id : Option Text

abbrev header_of : Text → Option Text → List (Text × Text)
header_of name none = []
header_of name (some []) = []
header_of name (some (c ∷ t)) = (name, c ∷ t) ∷ []

unfoldable pub as_forward_headers : PropagatedAuth → List (Text × Text)
as_forward_headers a =
    header_of (codes "Authorization") a.authorization
    ++ (header_of (codes "X-API-Key") a.api_key
        ++ header_of (codes "X-Correlation-ID") a.correlation_id)

unfoldable pub has_credentials : PropagatedAuth → Bool
has_credentials a = is_set a.authorization || is_set a.api_key

-- The names of the headers, FORWARD_HEADER_* in app/core/config.py.
pub record ForwardHeaders : Type 0 where
  pub header_authorization : Text
  pub header_api_key : Text
  pub header_correlation_id : Text

-- What the request's context variables hold.
pub record RequestContext : Type 0 where
  pub correlation_id : Text
  pub auth : PropagatedAuth
  pub identity : Option VerifiedIdentity

-- `value or default`
abbrev filled_or : Text → Option Text → Text
filled_or t none = t
filled_or t (some []) = t
filled_or t (some (c ∷ u)) = c ∷ u

abbrev captured : ForwardHeaders → (Text → Option Text) → Text → PropagatedAuth
captured names headers correlation_id = record {
  authorization = headers names.header_authorization;
  api_key = headers names.header_api_key;
  correlation_id = some correlation_id;
}

-- Before the request goes on: `headers` is `request.headers.get`, and `fresh` a new uuid4.
unfoldable pub request_context :
    Keycloak
    → Settings
    → ForwardHeaders
    → (Text → Option Text)
    → Text
    → JwksCache
    → RequestContext × JwksCache
unfolding verify_bearer_token
request_context k s names headers fresh c =
    let correlation_id = filled_or fresh (headers names.header_correlation_id) in
    let auth = captured names headers correlation_id in
    let (identity, c) = verify_bearer_token k s auth.authorization c in
    (record { correlation_id = correlation_id; auth = auth; identity = identity }, c)

-- `set_header` is `response.headers[name] = value`.
unfoldable pub dispatch {ℓ} :
    {R : Type ℓ}
    → (Text → Text → R → R)
    → (RequestContext → R)
    → Keycloak
    → Settings
    → ForwardHeaders
    → (Text → Option Text)
    → Text
    → JwksCache
    → R × JwksCache
unfolding request_context
dispatch set_header call_next k s names headers fresh c =
    let (context, c) = request_context k s names headers fresh c in
    (set_header names.header_correlation_id context.correlation_id (call_next context), c)
