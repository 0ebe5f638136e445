-- ===== src/Identity/Keys.antt =====
-- app/core/identity.py: _JWKSCache, and the choice of a key from the realm's document.
use aiplatform.Shared.{
  ℕ, suc, ◌+◌, Bool, true, false, ◌&&◌, Option, none, some, [], Text, codes, ltb, if◌then◌else◌,
}
use aiplatform.Models.{Json, Items, Fields}
use aiplatform.Webhook.Input.{get_field}

-- What `jwt.decode` is told to check.
pub record Checks : Type 0 where
  pub algorithms : Items
  pub audience : Option Text
  pub issuer : Option Text
  pub verify_aud : Bool

-- httpx, python-jose, and functions of Python's on strings and parsed values.
pub record Keycloak : Type 0 where
  -- `time.monotonic()` at its n-th reading.
  pub monotonic : ℕ → ℕ
  -- The document that a URL answers with after the n-th reading, unless the request raises.
  pub certs : Option Text → ℕ → Option Json
  -- `jwt.get_unverified_header` and `jwt.decode`, unless they raise.
  pub get_unverified_header : Text → Option Fields
  pub decode : Text → Json → Checks → Option Fields
  pub same_value : Json → Json → Bool  -- `==`
  pub is_true : Json → Bool
  pub str_of : Json → Text
  pub strip : Text → Text

-- `_jwks` is null where Python has None; `readings` counts the readings of the clock.
pub record JwksCache : Type 0 where
  pub jwks : Json
  pub fetched_at : ℕ
  pub readings : ℕ

-- `_JWKSCache()`
abbrev pub empty_cache : JwksCache
empty_cache = record { jwks = Json.null; fetched_at = 0; readings = 0 }

abbrev pub ttl_seconds : ℕ
ttl_seconds = 300

-- `is not None`
abbrev pub is_present : Json → Bool
is_present Json.null = false
is_present _ = true

abbrev pub is_fresh : ℕ → JwksCache → Bool
is_fresh now c = is_present c.jwks && ltb now (c.fetched_at + ttl_seconds)

abbrev pub received : ℕ → Option Json → JwksCache → Option Json × JwksCache
received now (some j) c = (some j, record { jwks = j; fetched_at = now; readings = suc c.readings })
received now none c = (none, record c { readings = suc c.readings })

-- `get`; none where the request raises.
unfoldable pub get : Keycloak → Option Text → JwksCache → Option Json × JwksCache
get k url c =
    let now = k.monotonic c.readings in
    if is_fresh now c
    then (some c.jwks, record c { readings = suc c.readings })
    else received now (k.certs url c.readings) c

-- `d.get(name)`
unfoldable pub get_or_null : Text → Fields → Json
unfolding get_field
get_or_null name d = elim (get_field name d) [ none ↦ Json.null | some v ↦ v ]

-- The first of the keys with the header's `kid`; the outer none is a key that is no object.
unfoldable pub scan : Keycloak → Json → Items → Option (Option Json)
unfolding get_or_null
scan k kid Items.no_items = some none
scan k kid (Items.item (Json.object d) ks) =
    if k.same_value (get_or_null (codes "kid") d) kid
    then some (some (Json.object d))
    else scan k kid ks
scan k kid (Items.item _ ks) = none

-- What can be iterated: a list, and with no key to find an empty object or string.
unfoldable pub scan_value : Keycloak → Json → Json → Option (Option Json)
unfolding scan
scan_value k kid (Json.array ks) = scan k kid ks
scan_value k kid (Json.object Fields.no_fields) = some none
scan_value k kid (Json.string []) = some none
scan_value k kid _ = none

-- `next((k for k in jwks.get("keys", []) if k.get("kid") == header.get("kid")), None)`; the outer
-- none is an exception.
unfoldable pub find_key : Keycloak → Fields → Json → Option (Option Json)
unfolding scan_value get_field get_or_null
find_key k header (Json.object d) = elim (get_field (codes "keys") d) [
  | none ↦ some none
  | some ks ↦ scan_value k (get_or_null (codes "kid") header) ks
]
find_key k header _ = none
