-- ===== src/Knowledge/Service.antt =====
-- app/knowledge/executor.py and app/knowledge/service.py: the knowledge skills of an agent.
use aiplatform.Shared.{
  ℕ, Bool, true, false, ◌&&◌, Option, none, some, List, [], ◌∷◌, ◌++◌, Text, codes, select,
  is_filled, if◌then◌else◌,
}
use aiplatform.Errors.{Failure, text, raised, ErrorClass}
use aiplatform.Exec.{Result, ok, err}
use aiplatform.Models.{Skill, SkillType, Json}
use aiplatform.State.{Db}
use aiplatform.Capability.Skills.{list_skills_for_agent}
use aiplatform.Knowledge.Platform.{
  Platform, KnowledgeSkillConfig, KnowledgeChunkSource, KnowledgeError, Reply, got, threw,
  validated_config, search, get_chunk_source,
}
use aiplatform.Knowledge.Mapper.{KnowledgeChunk, parse_search_response, render_context}

pub record KnowledgeExecutionResult : Type 0 where
  pub is_ok : Bool
  pub context : Text

abbrev pub failed_result : KnowledgeExecutionResult
failed_result = record { is_ok = false; context = [] }

-- An exception that is no `KnowledgeServiceError` gets out of `execute`.
abbrev pub escaped : Failure
escaped = raised ErrorClass.other (text "knowledge response not understood")

-- `except KnowledgeServiceError`
abbrev pub caught : KnowledgeError → Result KnowledgeExecutionResult
caught KnowledgeError.escaping = err escaped
caught _ = ok failed_result

abbrev pub rendered : Platform → Option (List KnowledgeChunk) → Result KnowledgeExecutionResult
rendered p none = err escaped
rendered p (some chunks) = ok (record { is_ok = true; context = render_context p chunks })

abbrev pub received : Platform → Reply Json → Result KnowledgeExecutionResult
received p (threw e) = caught e
received p (got raw) = rendered p (parse_search_response p raw)

unfoldable pub execute : Platform → KnowledgeSkillConfig → Text → Result KnowledgeExecutionResult
unfolding search parse_search_response render_context
execute p c query = received p (search p c query)

-- `except Exception` follows, so nothing escapes.
unfoldable pub fetch_source : Platform → Text → KnowledgeSkillConfig → Option KnowledgeChunkSource
unfolding get_chunk_source
fetch_source p chunk_id c = elim (get_chunk_source p c chunk_id) [
  | threw e ↦ none
  | got raw ↦ p.read_source raw
]

abbrev pub is_knowledge : SkillType → Bool
is_knowledge SkillType.knowledge = true
is_knowledge _ = false

-- `_build_executor`; `none` is a KnowledgeConfigError.
unfoldable pub build_executor : Platform → Skill → Option KnowledgeSkillConfig
unfolding validated_config
build_executor p s = if is_knowledge s.skill_type then validated_config p s.config else none

abbrev pub executed :
    Platform → Text → Option KnowledgeSkillConfig → Result KnowledgeExecutionResult
executed p query none = ok failed_result
executed p query (some c) = execute p c query

unfoldable pub execute_by_skill : Platform → Skill → Text → Result KnowledgeExecutionResult
unfolding build_executor execute
execute_by_skill p s query = executed p query (build_executor p s)

unfoldable pub knowledge_skills : ℕ → Db → List Skill
unfolding list_skills_for_agent
knowledge_skills agent_id d =
    select (λ s. is_knowledge s.skill_type) (list_skills_for_agent agent_id d)

-- `if result.ok and result.context`
abbrev pub add_context : KnowledgeExecutionResult → List Text → List Text
add_context r cs = if r.is_ok && is_filled r.context then r.context ∷ cs else cs

abbrev pub then_contexts : Result KnowledgeExecutionResult → Result (List Text) → Result (List Text)
then_contexts (err e) rest = err e
then_contexts (ok r) (err e) = err e
then_contexts (ok r) (ok cs) = ok (add_context r cs)

unfoldable pub contexts_of : Platform → Text → List Skill → Result (List Text)
unfolding execute_by_skill
contexts_of p query [] = ok []
contexts_of p query (s ∷ ss) = then_contexts (execute_by_skill p s query) (contexts_of p query ss)

-- `"\n\n".join(parts)`
unfoldable pub join_blocks : List Text → Text
join_blocks [] = []
join_blocks (t ∷ []) = t
join_blocks (t ∷ u ∷ ts) = t ++ 10 ∷ 10 ∷ join_blocks (u ∷ ts)

abbrev pub joined : Result (List Text) → Result Text
joined (err e) = err e
joined (ok cs) = ok (join_blocks cs)

unfoldable pub execute_for_agent : Platform → ℕ → Text → Db → Result Text
unfolding knowledge_skills contexts_of join_blocks
execute_for_agent p agent_id query d = joined (contexts_of p query (knowledge_skills agent_id d))

-- The configurations that are valid, in order.
unfoldable pub executors_of : Platform → List Skill → List KnowledgeSkillConfig
unfolding validated_config
executors_of p [] = []
executors_of p (s ∷ ss) =
    let rest = executors_of p ss in
    elim (validated_config p s.config) [ none ↦ rest | some c ↦ c ∷ rest ]

-- The platforms that the tool asks, or no tool.
unfoldable pub build_source_lookup_tool : Platform → ℕ → Db → Option (List KnowledgeSkillConfig)
unfolding executors_of knowledge_skills
build_source_lookup_tool p agent_id d = elim (executors_of p (knowledge_skills agent_id d)) [
  | [] ↦ none
  | c ∷ cs ↦ some (c ∷ cs)
]

abbrev page_info : Platform → Option Json → Text
page_info p none = []
page_info p (some v) = codes " (trang " ++ (p.str_of v ++ codes ")")

-- `get_document_source`: the first platform that knows the chunk.
unfoldable pub get_document_source : Platform → Text → List KnowledgeSkillConfig → Text
unfolding fetch_source
get_document_source p chunk_id [] = codes "Không tìm thấy tài liệu gốc cho đoạn này."
get_document_source p chunk_id (c ∷ cs) =
    let rest = get_document_source p chunk_id cs in
    elim (fetch_source p chunk_id c) [
      | none ↦ rest
      | some s ↦ codes "Tài liệu gốc" ++ (page_info p s.page ++ (codes ": " ++ s.source_url))
    ]
