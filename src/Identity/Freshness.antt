-- ===== src/Identity/Freshness.antt =====
-- Where the documents of the cache come from, and how old they are when they are used.
use aiplatform.Shared.{
  ℕ, suc, ◌+◌, ◌≤◌, ◌<◌, ◌≡◌, refl, ap, ◌∙◌, ◌⊎◌, inl, inr, true, Option, none, some, Text, codes,
  [], ◌∷◌, Bool-cases, Option-cases, arith,
}
use aiplatform.Models.{Json, Items, Fields, InItems}
use aiplatform.Webhook.Input.{get_field}
use aiplatform.Identity.Keys.{
  Keycloak, JwksCache, ttl_seconds, is_fresh, received, get, get_or_null, scan, scan_value,
  find_key,
}

-- The key is listed in the document, under the name that the token's header gives.
pub record IsListed (k : Keycloak) (header : Fields) (key j : Json) : Type 0 where
  document : Fields
  keys : Items
  fields : Fields
  is_document : j ≡ Json.object document
  has_keys : get_field (codes "keys") document ≡ some (Json.array keys)
  is_among : InItems key keys
  is_object : key ≡ Json.object fields
  has_kid :
      k.same_value (get_or_null (codes "kid") fields) (get_or_null (codes "kid") header) ≡ true

module _ (k : Keycloak) (url : Option Text) where
  -- At the m-th reading of the clock the document had been asked for less than five minutes before.
  abbrev pub IsRecent : Json → ℕ → Type 0
  IsRecent j m =
      (n : ℕ) × (n ≤ m) × (k.certs url n ≡ some j) × (k.monotonic m < k.monotonic n + ttl_seconds)

  -- The cache is empty, or holds a document with the time at which it was asked for.
  abbrev pub IsServed : JwksCache → Type 0
  IsServed c =
      (c.jwks ≡ Json.null)
      ⊎ ((n : ℕ) × (n ≤ c.readings)
          × (k.certs url n ≡ some c.jwks)
          × (c.fetched_at ≡ k.monotonic n))

  fresh-served :
      (c : JwksCache)
      → IsServed c
      → is_fresh (k.monotonic c.readings) c ≡ true
      → IsRecent c.jwks c.readings
  fresh-served c (inl e) h = absurd (ground (arith, e, h))
  fresh-served c (inr (n, l, e, f)) h = (n, l, e, ground (arith, f, h))

  received-IsRecent :
      (o : Option Json) (c : JwksCache) (j : Json)
      → k.certs url c.readings ≡ o
      → (received (k.monotonic c.readings) o c).0 ≡ some j
      → IsRecent j c.readings
  received-IsRecent none c j e h = cc h
  received-IsRecent (some i) c j e h = (c.readings, omega arith, e ∙ h, omega arith)

  received-IsServed :
      (o : Option Json) (c : JwksCache)
      → IsServed c
      → k.certs url c.readings ≡ o
      → IsServed (received (k.monotonic c.readings) o c).1
  received-IsServed none c h e = elim h [
    | inl n ↦ inl n
    | inr (n, l, a, b) ↦ inr (n, omega arith, a, b)
  ]
  received-IsServed (some i) c h e = inr (c.readings, omega arith, e, refl)

  received-readings :
      (o : Option Json) (c : JwksCache)
      → (received (k.monotonic c.readings) o c).1.readings ≡ suc c.readings
  received-readings none c = refl
  received-readings (some i) c = refl

  pub get-IsRecent :
      (c : JwksCache) (j : Json) → IsServed c → (get k url c).0 ≡ some j → IsRecent j c.readings
  unfolding get
  get-IsRecent c j v h = elim (Bool-cases (is_fresh (k.monotonic c.readings) c)) [
    | inl e ↦ let p : j ≡ c.jwks = cc in rw p (fresh-served c v e)
    | inr e ↦ received-IsRecent (k.certs url c.readings) c j refl (rw e at h)
  ]

  pub get-IsServed : (c : JwksCache) → IsServed c → IsServed (get k url c).1
  unfolding get
  get-IsServed c v = elim (Bool-cases (is_fresh (k.monotonic c.readings) c)) [
    | inl e ↦ elim v [ inl n ↦ rw e (inl n) | inr (n, l, a, b) ↦ rw e (inr (n, omega arith, a, b)) ]
    | inr e ↦ rw e (received-IsServed (k.certs url c.readings) c v refl)
  ]

  pub get-readings : (c : JwksCache) → (get k url c).1.readings ≡ suc c.readings
  unfolding get
  get-readings c = elim (Bool-cases (is_fresh (k.monotonic c.readings) c)) [
    | inl e ↦ rw e refl
    | inr e ↦ rw e (received-readings (k.certs url c.readings) c)
  ]

-- A key that is found is listed.
module _ (k : Keycloak) where
  abbrev HasKid : Json → Json → Items → Type 0
  HasKid kid key ks =
      InItems key ks
      × (d : Fields) × (key ≡ Json.object d)
      × (k.same_value (get_or_null (codes "kid") d) kid ≡ true)

  scan-HasKid :
      (kid : Json) (ks : Items) (key : Json) → scan k kid ks ≡ some (some key) → HasKid kid key ks
  unfolding scan
  scan-HasKid kid Items.no_items key h = absurd (cc h)
  scan-HasKid kid (Items.item (Json.object d) ks) key h =
      elim (Bool-cases (k.same_value (get_or_null (codes "kid") d) kid)) [
        | inl e ↦ (inl (cc), d, cc, e)
        | inr e ↦ let r = scan-HasKid kid ks key (rw e at h) in (inr r.0, r.1, r.2, r.3)
      ]
  scan-HasKid kid (Items.item Json.null ks) key h = absurd (cc h)
  scan-HasKid kid (Items.item (Json.boolean b) ks) key h = absurd (cc h)
  scan-HasKid kid (Items.item (Json.number n) ks) key h = absurd (cc h)
  scan-HasKid kid (Items.item (Json.string t) ks) key h = absurd (cc h)
  scan-HasKid kid (Items.item (Json.array vs) ks) key h = absurd (cc h)

  scan_value-HasKid :
      (kid v key : Json)
      → scan_value k kid v ≡ some (some key)
      → (ks : Items) × (v ≡ Json.array ks) × HasKid kid key ks
  unfolding scan_value
  scan_value-HasKid kid (Json.array ks) key h = (ks, refl, scan-HasKid kid ks key h)
  scan_value-HasKid kid (Json.object Fields.no_fields) key h = absurd (cc h)
  scan_value-HasKid kid (Json.object (Fields.field n v d)) key h = absurd (cc h)
  scan_value-HasKid kid (Json.string []) key h = absurd (cc h)
  scan_value-HasKid kid (Json.string (c ∷ t)) key h = absurd (cc h)
  scan_value-HasKid kid Json.null key h = absurd (cc h)
  scan_value-HasKid kid (Json.boolean b) key h = absurd (cc h)
  scan_value-HasKid kid (Json.number n) key h = absurd (cc h)

  listed :
      (header d : Fields) (key v : Json)
      → get_field (codes "keys") d ≡ some v
      → scan_value k (get_or_null (codes "kid") header) v ≡ some (some key)
      → IsListed k header key (Json.object d)
  listed header d key v e h =
      let (ks, a, (i, f, o, s)) = scan_value-HasKid (get_or_null (codes "kid") header) v key h in
      record {
        document = d;
        keys = ks;
        fields = f;
        is_document = refl;
        has_keys = e ∙ ap some a;
        is_among = i;
        is_object = o;
        has_kid = s;
      }

  pub find_key-IsListed :
      (header : Fields) (j key : Json)
      → find_key k header j ≡ some (some key)
      → IsListed k header key j
  unfolding find_key
  find_key-IsListed header (Json.object d) key h =
      elim (Option-cases (get_field (codes "keys") d)) [
        | inl e ↦ absurd (cc (h, e))
        | inr (v, e) ↦ listed header d key v e (rw (e, find_key) at h)
      ]
  find_key-IsListed header Json.null key h = absurd (cc h)
  find_key-IsListed header (Json.boolean b) key h = absurd (cc h)
  find_key-IsListed header (Json.number n) key h = absurd (cc h)
  find_key-IsListed header (Json.string t) key h = absurd (cc h)
  find_key-IsListed header (Json.array vs) key h = absurd (cc h)
