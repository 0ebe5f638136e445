-- ===== src/Identity/Found.antt =====
-- Where the key comes from that a token is verified with: the first answer of the cache, or the
-- document that is fetched where that one has no such key.
use aiplatform.Shared.{ℕ, suc, ◌≤◌, ◌≡◌, refl, ◌∙◌, inl, Option, none, some, arith}
use aiplatform.Models.{Json, Fields}
use aiplatform.Settings.{Settings}
use aiplatform.Identity.Keys.{Keycloak, JwksCache, get}
use aiplatform.Identity.Tokens.{key_in, refetched}
use aiplatform.Identity.Freshness.{
  IsListed, IsRecent, IsServed, get-IsRecent, get-IsServed, get-readings, find_key-IsListed,
}

module _ (k : Keycloak) (s : Settings) where
  -- What is known of the cache after a request for a key, and of the key, if there is one.
  pub record IsFound (header : Fields) (from : ℕ) (r : Option (Option Json) × JwksCache)
      : Type 0 where
    pub served : IsServed k s.keycloak_jwks_url r.1
    pub found :
        (key : Json)
        → r.0 ≡ some (some key)
        → (m : ℕ) × (from ≤ m)
          × (m ≤ suc from)
          × (j : Json) × IsRecent k s.keycloak_jwks_url j m
          × IsListed k header key j

  key_in-IsFound :
      (header : Fields) (from m : ℕ) (o : Option Json) (c : JwksCache)
      → from ≤ m
      → m ≤ suc from
      → IsServed k s.keycloak_jwks_url c
      → ((j : Json) → o ≡ some j → IsRecent k s.keycloak_jwks_url j m)
      → IsFound header from (key_in k header (o, c))
  key_in-IsFound header from m none c a b v h = record {
    served = v;
    found = λ key e. absurd (cc e);
  }
  key_in-IsFound header from m (some j) c a b v h = record {
    served = v;
    found = λ key e. (m, a, b, j, h j refl, find_key-IsListed k header j key e);
  }

  refetched-IsFound :
      (header : Fields) (from : ℕ) (r : Option (Option Json) × JwksCache)
      → r.1.readings ≡ suc from
      → IsFound header from r
      → IsFound header from (refetched k s header r)
  refetched-IsFound header from (none, c) e h = h
  refetched-IsFound header from (some (some key), c) e h = h
  refetched-IsFound header from (some none, c) e h =
      let d : JwksCache = record c { jwks = Json.null } in
      key_in-IsFound header from c.readings (get k s.keycloak_jwks_url d).0
        (get k s.keycloak_jwks_url d).1 (omega (arith, e)) (omega (arith, e))
        (get-IsServed k s.keycloak_jwks_url d (inl refl))
        (λ j i. get-IsRecent k s.keycloak_jwks_url d j (inl refl) i)

  key_in-readings :
      (header : Fields) (r : Option Json × JwksCache)
      → (key_in k header r).1.readings ≡ r.1.readings
  key_in-readings header (none, c) = refl
  key_in-readings header (some j, c) = refl

  pub verify-IsFound :
      (header : Fields) (c : JwksCache)
      → IsServed k s.keycloak_jwks_url c
      → IsFound header c.readings
          (refetched k s header (key_in k header (get k s.keycloak_jwks_url c)))
  verify-IsFound header c v =
      let r = get k s.keycloak_jwks_url c in
      refetched-IsFound header c.readings (key_in k header r)
        (key_in-readings header r ∙ get-readings k s.keycloak_jwks_url c)
        (key_in-IsFound header c.readings c.readings r.0 r.1 (omega arith) (omega arith)
          (get-IsServed k s.keycloak_jwks_url c v)
          (λ j e. get-IsRecent k s.keycloak_jwks_url c j v e))
