-- ===== src/Identity/Trusted.antt =====
-- Whom a request is for, when only verified tokens are trusted.
use aiplatform.Shared.{
  ℕ, suc, ◌≤◌, ◌≡◌, refl, sym, inl, inr, true, Option, none, some, List, Text, codes, Bool-cases,
  Option-cases,
}
use aiplatform.Models.{Json, Fields}
use aiplatform.Settings.{Settings, AuthMode}
use aiplatform.Identity.Keys.{Keycloak, Checks, JwksCache, empty_cache, get, get_or_null}
use aiplatform.Identity.Tokens.{
  VerifiedIdentity, bearer_token, or_none, is_set, checks_of, extract_groups, identity_of, key_in,
  refetched, accepted, verify_token, verify_bearer_token,
}
use aiplatform.Identity.Freshness.{IsListed, IsRecent, IsServed, get-IsServed}
use aiplatform.Identity.Found.{IsFound, verify-IsFound}
use aiplatform.Identity.Requests.{ForwardHeaders, request_context}
use aiplatform.Chat.Identity.{resolve_effective_user_id}

-- The header carries a token that was accepted for this service, with a key that the realm lists;
-- the realm was asked for the list less than five minutes before the reading of the clock.
pub record IsSigned (k : Keycloak) (s : Settings) (a : Option Text) (reading : ℕ) (user : Text)
    (groups : List Text) : Type 0 where
  token : Text
  header : Fields
  document : Json
  key : Json
  checks : Checks
  claims : Fields
  has_token : bearer_token k a ≡ some token
  has_header : k.get_unverified_header token ≡ some header
  is_recent : IsRecent k s.keycloak_jwks_url document reading
  is_listed : IsListed k header key document
  for_audience : checks.audience ≡ or_none s.keycloak_audience
  of_issuer : checks.issuer ≡ or_none s.keycloak_issuer_url
  checks_audience : checks.verify_aud ≡ is_set s.keycloak_audience
  is_accepted : k.decode token key checks ≡ some claims
  has_subject : k.is_true (get_or_null (codes "sub") claims) ≡ true
  is_subject : user ≡ k.str_of (get_or_null (codes "sub") claims)
  has_groups : groups ≡ extract_groups k claims

module _ (k : Keycloak) (s : Settings) where
  -- The caches that requests, one after the other, lead to.
  pub data Reachable : JwksCache → Type 0 where
    unused : Reachable empty_cache
    verified :
        (authorization : Option Text) (c d : JwksCache)
        → Reachable c
        → (verify_bearer_token k s authorization c).1 ≡ d
        → Reachable d

  accepted-IsServed :
      (token : Text) (header : Fields) (r : Option (Option Json) × JwksCache)
      → IsServed k s.keycloak_jwks_url r.1
      → IsServed k s.keycloak_jwks_url (accepted k s token header r).1
  accepted-IsServed token header (none, c) v = v
  accepted-IsServed token header (some none, c) v = v
  accepted-IsServed token header (some (some key), c) v = v

  verify_token-IsServed :
      (o : Option Text) (c : JwksCache)
      → IsServed k s.keycloak_jwks_url c
      → IsServed k s.keycloak_jwks_url (verify_token k s o c).1
  verify_token-IsServed none c v = v
  verify_token-IsServed (some token) c v = elim (Option-cases (k.get_unverified_header token)) [
    | inl e ↦ rw e (get-IsServed k s.keycloak_jwks_url c v)
    | inr (h, e) ↦ rw e (
        accepted-IsServed token h (refetched k s h (key_in k h (get k s.keycloak_jwks_url c)))
          (verify-IsFound k s h c v).served)
  ]

  Reachable-IsServed : (c : JwksCache) → Reachable c → IsServed k s.keycloak_jwks_url c
  unfolding verify_bearer_token
  Reachable-IsServed c unused = inl refl
  Reachable-IsServed _ (verified a c d r e) = elim (Bool-cases s.feature_keycloak_auth) [
    | inl f ↦ rw (sym e, f) (verify_token-IsServed (bearer_token k a) c (Reachable-IsServed c r))
    | inr f ↦ rw (sym e, f) (Reachable-IsServed c r)
  ]

  -- Verified as `user`, with a document of one of this verification's readings of the clock.
  abbrev pub IsVerified : Option Text → JwksCache → Text → List Text → Type 0
  IsVerified a c user groups =
      (m : ℕ) × (c.readings ≤ m) × (m ≤ suc c.readings) × IsSigned k s a m user groups

  identity_of-claims :
      (claims : Fields) (id : VerifiedIdentity)
      → identity_of k s claims ≡ some id
      → (k.is_true (get_or_null (codes "sub") claims) ≡ true)
        × (id.user_id ≡ k.str_of (get_or_null (codes "sub") claims))
        × (id.groups ≡ extract_groups k claims)
  unfolding identity_of
  identity_of-claims claims id h =
      elim (Bool-cases (k.is_true (get_or_null (codes "sub") claims))) [
        | inl e ↦ (e, cc, cc)
        | inr e ↦ absurd (cc (h, e))
      ]

  accepted-IsVerified :
      (a : Option Text) (token : Text) (header : Fields) (c : JwksCache)
      (r : Option (Option Json) × JwksCache) (id : VerifiedIdentity)
      → bearer_token k a ≡ some token
      → k.get_unverified_header token ≡ some header
      → IsFound k s header c.readings r
      → (accepted k s token header r).0 ≡ some id
      → IsVerified a c id.user_id id.groups
  accepted-IsVerified a token header c (none, d) id t e f h = absurd (cc h)
  accepted-IsVerified a token header c (some none, d) id t e f h = absurd (cc h)
  accepted-IsVerified a token header c (some (some key), d) id t e f h =
      elim (Option-cases (k.decode token key (checks_of s header))) [
        | inl n ↦ absurd (cc (h, n))
        | inr (claims, o) ↦
            let (m, x, y, j, p, l) = f.found key refl in
            let (b, u, g) = identity_of-claims claims id (rw o at h) in
            (
              m,
              x,
              y,
              record {
                token = token;
                header = header;
                document = j;
                key = key;
                checks = checks_of s header;
                claims = claims;
                has_token = t;
                has_header = e;
                is_recent = p;
                is_listed = l;
                for_audience = unfold checks_of in refl;
                of_issuer = unfold checks_of in refl;
                checks_audience = unfold checks_of in refl;
                is_accepted = o;
                has_subject = b;
                is_subject = u;
                has_groups = g;
              },
            )
      ]

  verify_token-IsVerified :
      (a : Option Text) (c : JwksCache) (id : VerifiedIdentity) (o : Option Text)
      → bearer_token k a ≡ o
      → IsServed k s.keycloak_jwks_url c
      → (verify_token k s o c).0 ≡ some id
      → IsVerified a c id.user_id id.groups
  verify_token-IsVerified a c id none b v h = absurd (cc h)
  verify_token-IsVerified a c id (some token) b v h =
      elim (Option-cases (k.get_unverified_header token)) [
        | inl e ↦ absurd (cc (h, e))
        | inr (header, e) ↦
            accepted-IsVerified a token header c
              (refetched k s header (key_in k header (get k s.keycloak_jwks_url c))) id b e
              (verify-IsFound k s header c v) (rw e at h)
      ]

  verify_bearer_token-IsVerified :
      (a : Option Text) (c : JwksCache) (id : VerifiedIdentity)
      → IsServed k s.keycloak_jwks_url c
      → (verify_bearer_token k s a c).0 ≡ some id
      → IsVerified a c id.user_id id.groups
  unfolding verify_bearer_token
  verify_bearer_token-IsVerified a c id v h = elim (Bool-cases s.feature_keycloak_auth) [
    | inl f ↦ verify_token-IsVerified a c id (bearer_token k a) refl v (rw f at h)
    | inr f ↦ absurd (cc (h, f))
  ]

  user_of-verified :
      (client : Option Text) (o : Option VerifiedIdentity) (user : Text) (groups : List Text)
      → resolve_effective_user_id o client AuthMode.keycloak_required ≡ (some user, groups)
      → (id : VerifiedIdentity) × (o ≡ some id) × (id.user_id ≡ user) × (id.groups ≡ groups)
  unfolding resolve_effective_user_id
  user_of-verified client none user groups h = absurd (cc h)
  user_of-verified client (some id) user groups h = (id, refl, cc, cc)

  -- Where verified identities are required, a request runs for a user and groups only if its
  -- Authorization header carries a bearer token that the verification accepted, for the audience
  -- and the issuer of the settings, with a key of the token's `kid` that stands in a document of
  -- the realm's; the user is the token's subject, which is not empty, and the groups are the
  -- token's. That document was requested less than five minutes before, by the clock that this
  -- verification read. So it is whichever requests were verified before, and whatever user the
  -- client names.
  pub effective_user-IsVerified :
      (names : ForwardHeaders) (headers : Text → Option Text) (fresh : Text) (c : JwksCache)
      (client : Option Text) (user : Text) (groups : List Text)
      → Reachable c
      → resolve_effective_user_id
          (request_context k s names headers fresh c).0.identity
          client
          AuthMode.keycloak_required
        ≡ (some user, groups)
      → IsVerified (headers names.header_authorization) c user groups
  unfolding request_context
  effective_user-IsVerified names headers fresh c client user groups r h =
      let o = (verify_bearer_token k s (headers names.header_authorization) c).0 in
      let (id, e, u, g) = user_of-verified client o user groups h in
      rw (u, g) at
        (verify_bearer_token-IsVerified (headers names.header_authorization) c id
          (Reachable-IsServed c r) e)
