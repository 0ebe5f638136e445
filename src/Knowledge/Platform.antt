-- ===== src/Knowledge/Platform.antt =====
-- app/knowledge/models.py, app/knowledge/client.py and app/knowledge/exceptions.py: the
-- configuration of a knowledge skill, and the requests to its platform. Headers are left out.
use aiplatform.Shared.{
  ℕ, Bool, Option, none, some, [], ◌∷◌, ◌++◌, Text, ◌==◌, is_filled, if◌then◌else◌,
}
use aiplatform.Models.{Json, Fields}

-- `agentId` and `embeddingModelCode` are left out of a request when they are empty.
pub record KnowledgeSkillConfig : Type 0 where
  pub knowledge_base_url : Text
  pub search_api : Text
  pub source_api : Text
  pub collection_id : Text
  pub agent_id : Option Text
  pub embedding_model_code : Option Text
  pub top_k : ℕ
  pub timeout : ℕ

-- How a request of httpx ends, once the status is checked and the body decoded. A body that is
-- no JSON raises a ValueError, which is none of httpx' exceptions.
pub data HttpReply : Type 0 where
  responded : Json → HttpReply
  undecodable : HttpReply
  timed_out : HttpReply
  bad_status : ℕ → HttpReply
  transport_failed : HttpReply

pub record SearchBody : Type 0 where
  pub query : Text
  pub collection_id : Text
  pub top_k : ℕ
  pub agent_id : Option Text
  pub embedding_model_code : Option Text

-- `KnowledgeChunkSource`, of which the address and the page are used.
pub record KnowledgeChunkSource : Type 0 where
  pub source_url : Text
  pub page : Option Json

-- What the package takes from outside: pydantic's verdicts, httpx' replies, and functions of
-- Python's on strings and on parsed values.
pub record Platform : Type 0 where
  -- The fields of a configuration, checked for type and range, before the validators.
  pub read_config : Fields → Option KnowledgeSkillConfig
  pub read_source : Json → Option KnowledgeChunkSource
  -- Is a value a page (an integer or a string), or a score (a number)?
  pub is_page : Json → Bool
  pub is_score : Json → Bool
  pub post : Text → SearchBody → HttpReply
  pub get : Text → HttpReply
  -- `template.format(chunk_id=...)`, unless it raises.
  pub format : Text → Text → Option Text
  pub strip : Text → Text
  pub is_true : Json → Bool
  pub str_of : Json → Text

-- `value.rstrip("/")`
unfoldable pub strip_slashes : Text → Text
strip_slashes [] = []
strip_slashes (c ∷ t) =
    let rest = strip_slashes t in
    if c == 47 then (if is_filled rest then c ∷ rest else []) else c ∷ rest

unfoldable pub leading_slash : Text → Text
leading_slash [] = 47 ∷ []
leading_slash (c ∷ t) = if c == 47 then c ∷ t else 47 ∷ c ∷ t

abbrev pub as_fields : Option Fields → Fields
as_fields none = Fields.no_fields
as_fields (some d) = d

-- `KnowledgeSkillConfig.model_validate(raw_config or {})`
unfoldable pub validated_config : Platform → Option Fields → Option KnowledgeSkillConfig
unfolding strip_slashes leading_slash
validated_config p raw = elim (p.read_config (as_fields raw)) [
  | none ↦ none
  | some c ↦ some (record c {
    knowledge_base_url = strip_slashes c.knowledge_base_url;
    search_api = leading_slash c.search_api;
    source_api = leading_slash c.source_api;
  })
]

abbrev pub search_url : KnowledgeSkillConfig → Text
search_url c = c.knowledge_base_url ++ c.search_api

abbrev pub source_url : Platform → KnowledgeSkillConfig → Text → Option Text
source_url p c chunk_id = elim (p.format c.source_api chunk_id) [
  | none ↦ none
  | some t ↦ some (c.knowledge_base_url ++ t)
]

-- The exceptions of the package, `KnowledgeServiceError` and its children, and any other.
pub data KnowledgeError : Type 0 where
  config_error timeout_error unavailable : KnowledgeError
  escaping : KnowledgeError

pub data Reply {ℓ} (A : Type ℓ) : Type ℓ where
  got : A → Reply A
  threw : KnowledgeError → Reply A

abbrev pub reply_of : HttpReply → Reply Json
reply_of (responded v) = got v
reply_of undecodable = threw escaping
reply_of timed_out = threw timeout_error
reply_of (bad_status n) = threw unavailable
reply_of transport_failed = threw unavailable

-- `if self.config.agentId:`
abbrev pub if_filled : Option Text → Option Text
if_filled none = none
if_filled (some t) = if is_filled t then some t else none

unfoldable pub search : Platform → KnowledgeSkillConfig → Text → Reply Json
search p c query = reply_of (
    p.post (search_url c) (record {
      query = query;
      collection_id = c.collection_id;
      top_k = c.top_k;
      agent_id = if_filled c.agent_id;
      embedding_model_code = if_filled c.embedding_model_code;
    }))

unfoldable pub get_chunk_source : Platform → KnowledgeSkillConfig → Text → Reply Json
get_chunk_source p c chunk_id = elim (source_url p c chunk_id) [
  | none ↦ threw escaping
  | some url ↦ reply_of (p.get url)
]
