-- ===== src/Identity/Examples.antt =====
-- A realm that changes its key, and a caller who names another user.
use aiplatform.Shared.{
  ℕ, zero, suc, ◌≡◌, refl, true, Option, none, some, [], ◌∷◌, Text, codes, same_text, if◌then◌else◌,
}
use aiplatform.Models.{Json, Items, Fields}
use aiplatform.Settings.{AuthMode}
use aiplatform.State.Examples.{all_on}
use aiplatform.Identity.Keys.{Keycloak, JwksCache, empty_cache}
use aiplatform.Identity.Tokens.{verify_bearer_token}
use aiplatform.Identity.Requests.{ForwardHeaders, request_context, as_forward_headers}
use aiplatform.Identity.Trusted.{unused, verified, IsVerified, effective_user-IsVerified}
use aiplatform.Chat.Identity.{resolve_effective_user_id}

abbrev with_kid : Text → Fields
with_kid kid = Fields.field (codes "kid") (Json.string kid) Fields.no_fields

abbrev keys_with : Text → Json
keys_with kid = Json.object (
    Fields.field (codes "keys")
      (Json.array (Items.item (Json.object (with_kid kid)) Items.no_items)) Fields.no_fields)

abbrev text_of : Json → Text
text_of (Json.string t) = t
text_of _ = []

-- The key of the first reading is "old", and "new" later.
abbrev kid_at : ℕ → Text
kid_at zero = codes "old"
kid_at (suc n) = codes "new"

abbrev alice : Fields
alice = Fields.field (codes "sub") (Json.string (codes "alice")) Fields.no_fields

abbrev realm : Keycloak
realm = record {
  monotonic = λ n. n;
  certs = λ url n. some (keys_with (kid_at n));
  get_unverified_header = λ token. some (with_kid (codes "new"));
  decode = λ token key checks. some alice;
  same_value = λ v u. same_text (text_of v) (text_of u);
  is_true = λ v. true;
  str_of = text_of;
  strip = λ t. t;
}

abbrev names : ForwardHeaders
names = record {
  header_authorization = codes "Authorization";
  header_api_key = codes "X-API-Key";
  header_correlation_id = codes "X-Correlation-ID";
}

abbrev headers : Text → Option Text
headers name = if same_text name (codes "Authorization") then some (codes "Bearer t0ken") else none

-- The cache behind a first request, which fetched the realm's document twice.
abbrev cache : JwksCache
cache = record { jwks = keys_with (codes "new"); fetched_at = 1; readings = 2 }

first_request :
    (verify_bearer_token realm all_on (some (codes "BEARER t0ken")) empty_cache).1 ≡ cache
unfolding verify_bearer_token
first_request = refl

second_request :
    resolve_effective_user_id
      (request_context realm all_on names headers (codes "id") cache).0.identity
      (some (codes "bob"))
      AuthMode.keycloak_required
    ≡ (some (codes "alice"), [])
unfolding request_context resolve_effective_user_id
second_request = refl

forwarded :
    as_forward_headers (request_context realm all_on names headers [] cache).0.auth
    ≡ (codes "Authorization", codes "Bearer t0ken") ∷ []
unfolding request_context as_forward_headers
forwarded = refl

effective_user-IsVerified_example :
    IsVerified realm all_on (headers (codes "Authorization")) cache (codes "alice") []
effective_user-IsVerified_example =
    effective_user-IsVerified realm all_on names headers (codes "id") cache (some (codes "bob"))
      (codes "alice") []
      (verified (some (codes "BEARER t0ken")) empty_cache cache unused first_request) second_request
