-- ===== src/Webhook/Input.antt =====
-- app/webhooks/service.py: `verify_signature` and `extract_input`.
use aiplatform.Shared.{
  Bool, true, false, ltb, ◌&&◌, Option, none, some, List, [], ◌∷◌, Text, ◌==◌, same_text,
  if◌then◌else◌,
}
use aiplatform.Errors.{Failure, text, raised, ErrorClass}
use aiplatform.Exec.{Result, ok, err}
use aiplatform.Models.{Json, Fields}
use aiplatform.State.{Outside}

abbrev pub is_ascii : Text → Bool
is_ascii [] = true
is_ascii (c ∷ t) = ltb c 128 && is_ascii t

abbrev pub not_ascii : Failure
not_ascii =
    raised ErrorClass.other
      (text "TypeError: comparing strings with non-ASCII characters is not supported")

-- `hmac.compare_digest` on strings.
unfoldable pub compare_digest : Text → Text → Result Bool
compare_digest a b = if is_ascii a && is_ascii b then ok (same_text a b) else err not_ascii

-- A missing or an empty header verifies nothing.
unfoldable pub verify_signature : Outside → Text → Text → Option Text → Result Bool
unfolding compare_digest
verify_signature o secret raw_body none = ok false
verify_signature o secret raw_body (some []) = ok false
verify_signature o secret raw_body (some (c ∷ cs)) =
    compare_digest (o.hmac_sha256 secret raw_body) (c ∷ cs)

-- `node[part]`, if the key is there.
unfoldable pub get_field : Text → Fields → Option Json
get_field k Fields.no_fields = none
get_field k (Fields.field j v d) = if same_text j k then some v else get_field k d

-- `field_path.split(".")`: the part that has begun, and the parts after it.
unfoldable pub split_dots : Text → Text × List Text
split_dots [] = ([], [])
split_dots (c ∷ cs) =
    let (part, parts) = split_dots cs in if c == 46 then ([], part ∷ parts) else (c ∷ part, parts)

-- One step of the walk: only an object has parts.
unfoldable pub child : Text → Json → Option Json
unfolding get_field
child part (Json.object d) = get_field part d
child part _ = none

-- The loop over the parts.
unfoldable pub walk : List Text → Json → Option Json
unfolding child
walk [] node = some node
walk (part ∷ parts) node = elim (child part node) [ none ↦ none | some v ↦ walk parts v ]

-- A list or an object is dumped, a scalar is `str(node)`.
unfoldable pub render : Outside → Json → Text
render o (Json.object d) = o.json_dumps (Json.object d)
render o (Json.array xs) = o.json_dumps (Json.array xs)
render o node = o.str_of node

unfoldable pub extract_at : Outside → Fields → Text → Text
unfolding split_dots walk render
extract_at o body path =
    let (part, parts) = split_dots path in
    elim (walk (part ∷ parts) (Json.object body)) [
      | none ↦ o.json_dumps (Json.object body)
      | some node ↦ render o node
    ]

unfoldable pub extract_input : Outside → Fields → Option Text → Text
unfolding extract_at
extract_input o body none = o.json_dumps (Json.object body)
extract_input o body (some []) = o.json_dumps (Json.object body)
extract_input o body (some (c ∷ cs)) = extract_at o body (c ∷ cs)

-- `raw_body or b"{}"`
abbrev pub or_braces : Text → Text
or_braces [] = 123 ∷ 125 ∷ []
or_braces (c ∷ cs) = c ∷ cs

-- `{"value": body}` of a body that is no object.
unfoldable pub as_object : Option Json → Fields
as_object none = Fields.no_fields
as_object (some (Json.object d)) = d
as_object (some v) = Fields.field (118 ∷ 97 ∷ 108 ∷ 117 ∷ 101 ∷ []) v Fields.no_fields

unfoldable pub parse_body : Outside → Text → Fields
unfolding as_object
parse_body o raw_body = as_object (o.json_loads (or_braces raw_body))
