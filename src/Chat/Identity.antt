-- ===== src/Chat/Identity.antt =====
-- app/core/identity_context.py: whom a request is for.
use aiplatform.Shared.{◌≡◌, refl, Option, none, some, List, [], Text, ◌⊎◌, inl, inr, is_some, true}
use aiplatform.Settings.{AuthMode}
use aiplatform.Identity.Tokens.{VerifiedIdentity}

unfoldable pub resolve_effective_user_id :
    Option VerifiedIdentity → Option Text → AuthMode → Option Text × List Text
resolve_effective_user_id (some identity) client mode = (some identity.user_id, identity.groups)
resolve_effective_user_id none client AuthMode.keycloak_required = (none, [])
resolve_effective_user_id none client AuthMode.trust_client_user_id = (client, [])

-- A caller cannot choose who the request is for: with a verified identity, or where one is
-- required, the name that the client sends has no influence on the user or the groups.
pub effective_user_unspoofable :
    (identity : Option VerifiedIdentity) (mode : AuthMode) (client other : Option Text)
    → (is_some identity ≡ true) ⊎ (mode ≡ AuthMode.keycloak_required)
    → resolve_effective_user_id identity client mode ≡ resolve_effective_user_id identity other mode
unfolding resolve_effective_user_id
effective_user_unspoofable (some _) mode client other h = refl
effective_user_unspoofable none AuthMode.keycloak_required client other h = refl
effective_user_unspoofable none AuthMode.trust_client_user_id client other (inl h) = cc
effective_user_unspoofable none AuthMode.trust_client_user_id client other (inr h) = cc
