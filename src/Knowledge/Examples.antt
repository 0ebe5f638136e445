-- ===== src/Knowledge/Examples.antt =====
-- Two knowledge skills, of which one platform is down, and the theorems applied to them.
use aiplatform.Shared.{
  ℕ, ◌≡◌, refl, inl, inr, not, true, false, none, some, [], ◌∷◌, Text, codes, same_text, select,
  if◌then◌else◌,
}
use aiplatform.Exec.{ok, err}
use aiplatform.Models.{Skill, SkillType, Json, Items, Fields}
use aiplatform.State.{Db}
use aiplatform.State.Examples.{empty_db}
use aiplatform.Knowledge.Platform.{Platform, KnowledgeSkillConfig, responded, timed_out, search}
use aiplatform.Knowledge.Mapper.{first_present, find_item_list}
use aiplatform.Knowledge.Service.{
  knowledge_skills, contexts_of, execute_for_agent, joined, escaped, build_executor,
}
use aiplatform.Knowledge.Failures.{
  is_unavailable, execute_for_agent_omits, execute_for_agent_escapes,
}

-- The text of the field "url".
abbrev base_url_of : Fields → Text
base_url_of (Fields.field k (Json.string t) f) = t
base_url_of _ = []

abbrev config_at : Text → KnowledgeSkillConfig
config_at url = record {
  knowledge_base_url = url;
  search_api = codes "/search";
  source_api = codes "/source";
  collection_id = codes "c";
  agent_id = none;
  embedding_model_code = none;
  top_k = 10;
  timeout = 30;
}

abbrev chunk_with : Json → Fields
chunk_with id =
    Fields.field (codes "content") (Json.string (codes "Tea is hot."))
      (Fields.field (codes "id") id Fields.no_fields)

abbrev results : Json → Json
results id = Json.object (
    Fields.field (codes "results")
      (Json.array (Items.item (Json.object (chunk_with id)) Items.no_items)) Fields.no_fields)

abbrev text_of : Json → Text
text_of (Json.string t) = t
text_of _ = []

-- The platform "http://down" does not answer, and the other one answers with one chunk.
abbrev pub library : Json → Platform
library id = record {
  read_config = λ f. some (config_at (base_url_of f));
  read_source = λ v. none;
  is_page = λ v. true;
  is_score = λ v. true;
  post = λ url body.
      if same_text url (codes "http://down/search") then timed_out else responded (results id);
  get = λ url. timed_out;
  format = λ t c. some t;
  strip = λ t. t;
  is_true = λ v. true;
  str_of = text_of;
}

abbrev skill_at : ℕ → Text → Skill
skill_at id url = record {
  id = id;
  code = id ∷ [];
  skill_type = SkillType.knowledge;
  config = some (Fields.field (codes "url") (Json.string url) Fields.no_fields);
  deleted = false;
}

abbrev shelf : Db
shelf = record empty_db {
  skills = skill_at 20 (codes "http://down/") ∷ skill_at 21 (codes "http://up") ∷ [];
  agent_skills =
      (record { agent_id = 5; skill_id = 20 }) ∷ (record { agent_id = 5; skill_id = 21 }) ∷ [];
}

abbrev named : Platform
named = library (Json.string (codes "k1"))

abbrev numbered : Platform
numbered = library (Json.number (codes "1"))

both_asked : knowledge_skills 5 shelf ≡ shelf.skills
unfolding knowledge_skills
both_asked = refl

one_answer :
    contexts_of named (codes "tea?") (knowledge_skills 5 shelf)
    ≡ ok (
        codes
          "Knowledge Context\n----------------------------------------\nTea is hot.\nMa doan (chunk_id): k1\n----------------------------------------\nNeu nguoi dung yeu cau xem/tai tai lieu goc cua mot doan, hay goi tool get_document_source voi chunk_id tuong ung o tren de lay duong dan chinh xac - khong tu bia duong dan tai lieu."
        ∷ [])
unfolding contexts_of knowledge_skills
one_answer = refl

execute_for_agent_omits_example :
    execute_for_agent named 5 (codes "tea?") shelf
    ≡ joined (
        contexts_of named
          (codes "tea?")
          (select (λ s. not (is_unavailable named (codes "tea?") s)) (knowledge_skills 5 shelf)))
execute_for_agent_omits_example = execute_for_agent_omits named 5 (codes "tea?") shelf

execute_for_agent_escapes_example : execute_for_agent numbered 5 (codes "tea?") shelf ≡ err escaped
unfolding knowledge_skills build_executor search first_present find_item_list
execute_for_agent_escapes_example =
    execute_for_agent_escapes numbered 5 (codes "tea?") shelf (skill_at 21 (codes "http://up"))
      (config_at (codes "http://up")) (results (Json.number (codes "1")))
      (chunk_with (Json.number (codes "1"))) (inr (inl refl)) refl refl (inl refl)
      (Json.string (codes "Tea is hot."), refl, refl, codes "1", refl)
