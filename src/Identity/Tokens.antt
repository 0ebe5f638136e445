-- ===== src/Identity/Tokens.antt =====
-- app/core/identity.py: verify_bearer_token.
use aiplatform.Shared.{
  ℕ, ◌+◌, Bool, false, ◌&&◌, Option, none, some, List, [], ◌∷◌, Text, codes, leb, ◌==◌, is_filled,
  if◌then◌else◌,
}
use aiplatform.Models.{Json, Items, Fields}
use aiplatform.Settings.{Settings}
use aiplatform.Webhook.Input.{get_field}
use aiplatform.Identity.Keys.{Keycloak, Checks, JwksCache, get, get_or_null, find_key}

pub record VerifiedIdentity : Type 0 where
  pub user_id : Text
  pub username : Json
  pub email : Json
  pub groups : List Text
  pub realm : Option Text

-- `g.lstrip("/")`
unfoldable pub lstrip_slashes : Text → Text
lstrip_slashes [] = []
lstrip_slashes (c ∷ t) = if c == 47 then lstrip_slashes t else c ∷ t

unfoldable pub strings_of : (Json → Text) → Items → List Text
strings_of f Items.no_items = []
strings_of f (Items.item v vs) = f v ∷ strings_of f vs

-- The roles of the realm, where there are no groups.
abbrev roles_of : Keycloak → Json → List Text
roles_of k (Json.object d) = elim (get_or_null (codes "roles") d) [
  | Json.array rs ↦ strings_of k.str_of rs
  | other ↦ []
]
roles_of k _ = []

-- `_extract_groups`
unfoldable pub extract_groups : Keycloak → Fields → List Text
unfolding get_or_null strings_of lstrip_slashes
extract_groups k claims = elim (get_or_null (codes "groups") claims) [
  | Json.array gs ↦ strings_of (λ g. lstrip_slashes (k.str_of g)) gs
  | other ↦ roles_of k (get_or_null (codes "realm_access") claims)
]

-- `lower()` on one code point: only those of A to Z become a letter of "bearer ".
abbrev lower_code : ℕ → ℕ
lower_code c = if leb 65 c && leb c 90 then c + 32 else c

-- What follows a prefix of lower-case letters.
unfoldable pub after_prefix : Text → Text → Option Text
after_prefix [] t = some t
after_prefix (p ∷ ps) [] = none
after_prefix (p ∷ ps) (c ∷ t) = if lower_code c == p then after_prefix ps t else none

abbrev filled : Text → Option Text
filled [] = none
filled (c ∷ t) = some (c ∷ t)

-- The token of a header: what follows the blank of "bearer ", if it is not blank.
unfoldable pub bearer_token : Keycloak → Option Text → Option Text
unfolding after_prefix
bearer_token k none = none
bearer_token k (some authorization) = elim (after_prefix (codes "bearer ") authorization) [
  | none ↦ none
  | some t ↦ filled (k.strip t)
]

-- `value or None`
abbrev pub or_none : Option Text → Option Text
or_none none = none
or_none (some t) = filled t

-- `bool(value)`
abbrev pub is_set : Option Text → Bool
is_set none = false
is_set (some t) = is_filled t

-- `unverified_header.get("alg", "RS256")`
abbrev algorithm_of : Fields → Json
algorithm_of header = elim (get_field (codes "alg") header) [
  | none ↦ Json.string (codes "RS256")
  | some v ↦ v
]

unfoldable pub checks_of : Settings → Fields → Checks
unfolding get_field
checks_of s header = record {
  algorithms = Items.item (algorithm_of header) Items.no_items;
  audience = or_none s.keycloak_audience;
  issuer = or_none s.keycloak_issuer_url;
  verify_aud = is_set s.keycloak_audience;
}

-- What is made of the claims of a token that was accepted.
unfoldable pub identity_of : Keycloak → Settings → Fields → Option VerifiedIdentity
unfolding get_or_null extract_groups
identity_of k s claims =
    let sub = get_or_null (codes "sub") claims in
    if k.is_true sub
    then some (record {
      user_id = k.str_of sub;
      username = get_or_null (codes "preferred_username") claims;
      email = get_or_null (codes "email") claims;
      groups = extract_groups k claims;
      realm = s.keycloak_realm;
    })
    else none

-- A key from the answer of the cache.
abbrev pub key_in : Keycloak → Fields → Option Json × JwksCache → Option (Option Json) × JwksCache
key_in k header (none, c) = (none, c)
key_in k header (some j, c) = (find_key k header j, c)

-- A key that is missing is looked for once more, in a new document.
abbrev pub refetched :
    Keycloak
    → Settings
    → Fields
    → Option (Option Json) × JwksCache
    → Option (Option Json) × JwksCache
refetched k s header (some none, c) =
    key_in k header (get k s.keycloak_jwks_url (record c { jwks = Json.null }))
refetched k s header (none, c) = (none, c)
refetched k s header (some (some key), c) = (some (some key), c)

abbrev pub identity_from : Keycloak → Settings → Option Fields → Option VerifiedIdentity
identity_from k s none = none
identity_from k s (some claims) = identity_of k s claims

-- `jwt.decode` with the key that was found.
abbrev pub accepted :
    Keycloak
    → Settings
    → Text
    → Fields
    → Option (Option Json) × JwksCache
    → Option VerifiedIdentity × JwksCache
accepted k s token header (none, c) = (none, c)
accepted k s token header (some none, c) = (none, c)
accepted k s token header (some (some key), c) =
    (identity_from k s (k.decode token key (checks_of s header)), c)

-- Behind the first answer of the cache.
abbrev pub verify_with :
    Keycloak
    → Settings
    → Text
    → Option Fields
    → Option Json × JwksCache
    → Option VerifiedIdentity × JwksCache
verify_with k s token none (j, c) = (none, c)
verify_with k s token (some header) r =
    accepted k s token header (refetched k s header (key_in k header r))

abbrev pub verify_token :
    Keycloak → Settings → Option Text → JwksCache → Option VerifiedIdentity × JwksCache
verify_token k s none c = (none, c)
verify_token k s (some token) c =
    verify_with k s token (k.get_unverified_header token) (get k s.keycloak_jwks_url c)

unfoldable pub verify_bearer_token :
    Keycloak → Settings → Option Text → JwksCache → Option VerifiedIdentity × JwksCache
unfolding bearer_token get find_key checks_of identity_of
verify_bearer_token k s authorization c =
    if s.feature_keycloak_auth then verify_token k s (bearer_token k authorization) c else (none, c)
