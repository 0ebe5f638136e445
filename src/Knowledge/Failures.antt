-- ===== src/Knowledge/Failures.antt =====
-- What becomes of an agent's run when a knowledge platform fails.
use aiplatform.Shared.{
  ℕ, ◌≡◌, refl, sym, ap, ◌∙◌, inl, inr, Bool, true, false, not, arith, Option, none, some, List, [],
  ◌∷◌, Text, select, Member, Bool-cases, Option-cases,
}
use aiplatform.Errors.{Failure}
use aiplatform.Exec.{Result, ok, err}
use aiplatform.Models.{Skill, Json, Items, InItems, Fields}
use aiplatform.State.{Db}
use aiplatform.Knowledge.Platform.{
  Platform, KnowledgeSkillConfig, KnowledgeError, Reply, got, threw, search,
}
use aiplatform.Knowledge.Mapper.{
  KnowledgeChunk, content_keys, id_keys, first_present, find_item_list, make_chunk, parse_fields,
  parse_item, parse_items, parse_search_response, Parsed, skipped, made, join_parsed,
}
use aiplatform.Knowledge.Service.{
  KnowledgeExecutionResult, failed_result, escaped, caught, execute, executed, rendered, received,
  then_contexts, build_executor, execute_by_skill, knowledge_skills, contexts_of, execute_for_agent,
  joined,
}

abbrev is_service_error : KnowledgeError → Bool
is_service_error KnowledgeError.escaping = false
is_service_error _ = true

abbrev threw_service_error : Reply Json → Bool
threw_service_error (got v) = false
threw_service_error (threw e) = is_service_error e

module _ (p : Platform) (query : Text) where
  -- The skill's configuration is invalid, or its platform answers with a timeout, an error status
  -- or not at all.
  abbrev pub is_unavailable : Skill → Bool
  is_unavailable s = elim (build_executor p s) [
    | none ↦ true
    | some c ↦ threw_service_error (search p c query)
  ]

  caught-failed : (e : KnowledgeError) → is_service_error e ≡ true → caught e ≡ ok failed_result
  caught-failed e h = ground arith

  received-failed :
      (r : Reply Json) → threw_service_error r ≡ true → received p r ≡ ok failed_result
  received-failed (got v) h = cc h
  received-failed (threw e) h = caught-failed e h

  unavailable-failed :
      (s : Skill) → is_unavailable s ≡ true → execute_by_skill p s query ≡ ok failed_result
  unfolding execute_by_skill execute
  unavailable-failed s h = elim (Option-cases (build_executor p s)) [
    | inl e ↦ ap (executed p query) e
    | inr (c, e) ↦
        ap (executed p query) e ∙ received-failed (search p c query) (rw (is_unavailable, e) at h)
  ]

  then_nothing : (r : Result (List Text)) → then_contexts (ok failed_result) r ≡ r
  then_nothing (ok cs) = refl
  then_nothing (err e) = refl

  pub contexts_of-select :
      (ss : List Skill)
      → contexts_of p query ss ≡ contexts_of p query (select (λ s. not (is_unavailable s)) ss)
  unfolding contexts_of
  contexts_of-select [] = refl
  contexts_of-select (s ∷ ss) = elim (Bool-cases (is_unavailable s)) [
    | inl e ↦
        ap (λ (r : Result KnowledgeExecutionResult). then_contexts r (contexts_of p query ss))
          (unavailable-failed s e)
        ∙ then_nothing (contexts_of p query ss)
        ∙ contexts_of-select ss
        ∙ rw e refl
    | inr e ↦ ap (then_contexts (execute_by_skill p s query)) (contexts_of-select ss) ∙ rw e refl
  ]

  -- Nothing but one exception gets out.
  rendered-err :
      (o : Option (List KnowledgeChunk)) (x : Failure) → rendered p o ≡ err x → x ≡ escaped
  rendered-err none x h = cc h
  rendered-err (some cs) x h = cc h

  received-err : (r : Reply Json) (x : Failure) → received p r ≡ err x → x ≡ escaped
  received-err (got v) x h = rendered-err (parse_search_response p v) x h
  received-err (threw e) x h = ground (arith, h)

  executed-err :
      (o : Option KnowledgeSkillConfig) (x : Failure) → executed p query o ≡ err x → x ≡ escaped
  unfolding execute
  executed-err none x h = cc h
  executed-err (some c) x h = received-err (search p c query) x h

  first_err :
      (r : Result KnowledgeExecutionResult)
      → ((x : Failure) → r ≡ err x → x ≡ escaped)
      → then_contexts r (err escaped) ≡ err escaped
  first_err (ok r) h = refl
  first_err (err x) h = ap err (h x refl)

  contexts-escape :
      (s : Skill) (ss : List Skill)
      → Member s ss
      → execute_by_skill p s query ≡ err escaped
      → contexts_of p query ss ≡ err escaped
  unfolding contexts_of
  contexts-escape s [] m h = absurd m
  contexts-escape s (x ∷ ss) (inl e) h =
      ap (λ (y : Skill). then_contexts (execute_by_skill p y query) (contexts_of p query ss))
        (sym e)
      ∙ ap (λ (r : Result KnowledgeExecutionResult). then_contexts r (contexts_of p query ss)) h
  contexts-escape s (x ∷ ss) (inr m) h =
      ap (then_contexts (execute_by_skill p x query)) (contexts-escape s ss m h)
      ∙ first_err (execute_by_skill p x query)
          (λ y g. executed-err (build_executor p x) y (unfold execute_by_skill in g))

module _ (p : Platform) where
  -- An item with a text, whose identifier is a number.
  abbrev pub IsNumbered : Fields → Type 0
  IsNumbered d =
      (v : Json) × (first_present content_keys d ≡ some v)
      × (p.is_true v ≡ true)
      × (n : Text) × (first_present id_keys d ≡ some (Json.number n))

  numbered-refused : (d : Fields) → IsNumbered d → parse_item p (Json.object d) ≡ made none
  unfolding parse_item parse_fields make_chunk
  numbered-refused d (v, e, t, n, i) = rw (parse_item, parse_fields, make_chunk, e, t, i) refl

  join_none : (x : Parsed) → join_parsed x none ≡ none
  join_none skipped = refl
  join_none (made none) = refl
  join_none (made (some c)) = refl

  items-refused :
      (d : Fields) (vs : Items)
      → IsNumbered d
      → InItems (Json.object d) vs
      → parse_items p vs ≡ none
  unfolding parse_items
  items-refused d Items.no_items h m = absurd m
  items-refused d (Items.item u us) h (inl e) =
      ap (λ (x : Json). join_parsed (parse_item p x) (parse_items p us)) (sym e)
      ∙ ap (λ (x : Parsed). join_parsed x (parse_items p us)) (numbered-refused d h)
  items-refused d (Items.item u us) h (inr m) =
      ap (join_parsed (parse_item p u)) (items-refused d us h m) ∙ join_none (parse_item p u)

  numbered-escapes :
      (query : Text) (s : Skill) (c : KnowledgeSkillConfig) (raw : Json) (d : Fields)
      → build_executor p s ≡ some c
      → search p c query ≡ got raw
      → InItems (Json.object d) (find_item_list 5 raw)
      → IsNumbered d
      → execute_by_skill p s query ≡ err escaped
  unfolding execute_by_skill execute parse_search_response
  numbered-escapes query s c raw d e f m h =
      ap (executed p query) e
      ∙ ap (received p) f
      ∙ ap (rendered p) (items-refused d (find_item_list 5 raw) h m)

  module _ (agent_id : ℕ) (query : Text) (db : Db) where
    -- The knowledge that an agent gets is that of its skills without those that are unavailable:
    -- a skill with an invalid configuration, or whose platform does not answer in time, not at
    -- all or with an error status, takes nothing from the others.
    pub execute_for_agent_omits :
        execute_for_agent p agent_id query db
        ≡ joined (
            contexts_of p query
              (select (λ s. not (is_unavailable p query s)) (knowledge_skills agent_id db)))
    unfolding execute_for_agent
    execute_for_agent_omits = ap joined (contexts_of-select p query (knowledge_skills agent_id db))

    -- One item of one response that has a content to show and a number for its identifier fails the
    -- whole retrieval, whatever the other skills and items give.
    pub execute_for_agent_escapes :
        (s : Skill) (c : KnowledgeSkillConfig) (raw : Json) (d : Fields)
        → Member s (knowledge_skills agent_id db)
        → build_executor p s ≡ some c
        → search p c query ≡ got raw
        → InItems (Json.object d) (find_item_list 5 raw)
        → IsNumbered d
        → execute_for_agent p agent_id query db ≡ err escaped
    unfolding execute_for_agent
    execute_for_agent_escapes s c raw d member e f m h = ap joined (
        contexts-escape p query s (knowledge_skills agent_id db) member
          (numbered-escapes query s c raw d e f m h))
