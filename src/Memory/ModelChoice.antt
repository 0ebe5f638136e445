-- ===== src/Memory/ModelChoice.antt =====
-- app/services/model_service.py: which registry entry serves an agent, and the client that is
-- built from it. `str.lower` is a parameter.
use aiplatform.Shared.{
  ℕ, Bool, false, ◌&&◌, ◌||◌, not, Option, none, some, List, [], ◌∷◌, ◌++◌, Text, codes, ◌==◌,
  same_text, first_where, or_else, is_filled, includes, if◌then◌else◌,
}
use aiplatform.Errors.{Failure, about, text, raised, ErrorClass}
use aiplatform.Exec.{Result, ok, err}
use aiplatform.Settings.{Settings}
use aiplatform.Models.{ModelRegistry, Json, Fields}
use aiplatform.State.{Db}

-- `BaseRepository.get`
abbrev pub get_entry : ℕ → Db → Option ModelRegistry
get_entry id d = first_where (λ m. m.id == id && not m.deleted) d.model_registry

abbrev pub no_model : Failure
no_model = raised ErrorClass.validation_failed (text "No model_id resolvable")

abbrev pub no_entry : ℕ → Failure
no_entry id =
    raised ErrorClass.validation_failed (about "ModelRegistry entry not found or disabled" id)

unfoldable pub entry_of : Option ℕ → Db → Result ModelRegistry
entry_of none d = err no_model
entry_of (some id) d = elim (get_entry id d) [
  | none ↦ err (no_entry id)
  | some m ↦ if m.enabled then ok m else err (no_entry id)
]

unfoldable pub resolve_registry_entry : Option ℕ → Option ℕ → Db → Result ModelRegistry
unfolding entry_of
resolve_registry_entry agent_model_id agent_os_default_model_id d =
    entry_of (or_else agent_model_id agent_os_default_model_id) d

-- agno's classes, with the arguments that they are given.
pub data ModelClass : Type 0 where
  open_ai_chat open_ai_like claude : ModelClass

pub record ModelClient : Type 0 where
  pub model_class : ModelClass
  pub id : Text
  pub name : Option Text
  pub temperature : ℕ
  pub max_tokens : ℕ
  pub api_key : Option Text
  pub base_url : Option Text
  pub params : Option Fields

-- `a or b` on optional strings
abbrev pub or_text : Option Text → Option Text → Option Text
or_text none b = b
or_text (some []) b = b
or_text (some (c ∷ cs)) b = some (c ∷ cs)

-- `entry.extra_client_params or {}`
abbrev pub extra_params : ModelRegistry → Fields
extra_params m = elim m.extra_client_params [ none ↦ Fields.no_fields | some f ↦ f ]

unfoldable pub has_any_key : List Text → Fields → Bool
has_any_key ks Fields.no_fields = false
has_any_key ks (Fields.field k v f) = includes k ks || has_any_key ks f

-- `d[key] = value`
unfoldable pub set_key : Text → Json → Fields → Fields
set_key k v Fields.no_fields = Fields.field k v Fields.no_fields
set_key k v (Fields.field j x f) =
    let rest = set_key k v f in if same_text j k then Fields.field j v f else Fields.field j x rest

-- `client_params or None`
abbrev pub or_none : Fields → Option Fields
or_none Fields.no_fields = none
or_none (Fields.field k v f) = some (Fields.field k v f)

-- A keyword that is given twice is a TypeError.
abbrev pub called_with : List Text → Fields → ModelClient → Result ModelClient
called_with keys extra client =
    if has_any_key keys extra
    then err (raised ErrorClass.other (text "TypeError: multiple values for a keyword"))
    else ok client

abbrev pub base_keys : List Text
base_keys =
    codes "id" ∷ codes "temperature" ∷ codes "max_tokens" ∷ codes "api_key" ∷ codes "base_url" ∷ []

unfoldable pub build_openai : Settings → ModelRegistry → ℕ → Result ModelClient
unfolding has_any_key
build_openai settings m temperature = called_with base_keys (extra_params m) (record {
  model_class = ModelClass.open_ai_chat;
  id = m.model;
  name = none;
  temperature = temperature;
  max_tokens = m.max_tokens;
  api_key = or_text m.api_key settings.openai_api_key;
  base_url = m.base_url;
  params = some (extra_params m);
})

abbrev pub is_set : Option Text → Bool
is_set none = false
is_set (some t) = is_filled t

unfoldable pub build_openai_like : Settings → ModelRegistry → ℕ → Result ModelClient
unfolding has_any_key
build_openai_like settings m temperature =
    if is_set m.base_url
    then called_with (codes "name" ∷ base_keys) (extra_params m) (record {
      model_class = ModelClass.open_ai_like;
      id = m.model;
      name = some (codes "openai_like:" ++ m.model);
      temperature = temperature;
      max_tokens = m.max_tokens;
      api_key = or_text (or_text m.api_key settings.openai_api_key) (some (codes "not-provided"));
      base_url = m.base_url;
      params = some (extra_params m);
    })
    else err (raised ErrorClass.validation_failed (text "openai_like requires base_url"))

abbrev pub with_base_url : Option Text → Fields → Fields
with_base_url none f = f
with_base_url (some []) f = f
with_base_url (some (c ∷ cs)) f = set_key (codes "base_url") (Json.string (c ∷ cs)) f

unfoldable pub build_anthropic : Settings → ModelRegistry → ℕ → Result ModelClient
unfolding set_key
build_anthropic settings m temperature = ok (record {
  model_class = ModelClass.claude;
  id = m.model;
  name = none;
  temperature = temperature;
  max_tokens = m.max_tokens;
  api_key = or_text m.api_key settings.anthropic_api_key;
  base_url = none;
  params = or_none (with_base_url m.base_url (extra_params m));
})

unfoldable pub build_agno_model :
    (Text → Text) → Settings → ModelRegistry → Option ℕ → Result ModelClient
unfolding build_openai build_openai_like build_anthropic
build_agno_model lower settings m temperature_override =
    let provider = lower m.provider in
    let temperature : ℕ = elim temperature_override [ none ↦ m.temperature | some t ↦ t ] in
    if same_text provider (codes "openai")
    then build_openai settings m temperature
    else if same_text provider (codes "openai_like")
    then build_openai_like settings m temperature
    else if same_text provider (codes "anthropic")
    then build_anthropic settings m temperature
    else err (raised ErrorClass.validation_failed (text "Unsupported model provider"))
