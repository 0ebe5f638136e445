-- ===== src/Memory/Examples.antt =====
-- Two memories of one user, a prompt in two versions, and the theorems applied to them.
use aiplatform.Shared.{ℕ, ◌≡◌, ◌<◌, refl, inl, true, false, none, some, [], ◌∷◌, Text, codes}
use aiplatform.Models.{MemoryType, Prompt, PromptStatus, ModelRegistry}
use aiplatform.Errors.{text, raised, ErrorClass}
use aiplatform.Exec.{ok, err}
use aiplatform.State.{Db, World}
use aiplatform.State.Examples.{empty_db, blank, all_on}
use aiplatform.Chat.Examples.{enterprise, sales, seller}
use aiplatform.Memory.Service.{UserMemory, sync_from_agno, new_memory}
use aiplatform.Memory.Synced.{Succeeds, sync_from_agno-Succeeds}
use aiplatform.Engine.Remembering.{remember_fact}
use aiplatform.Memory.Prompts.{compose, next_version}
use aiplatform.Memory.ModelChoice.{resolve_registry_entry, build_agno_model}
use aiplatform.Memory.Versions.{next_version_above}

abbrev likes : Text → UserMemory
likes t = record { memory_id = some (codes "m1"); memory = some t }

abbrev remembering : World
remembering = blank (record empty_db {
  agent_memories =
      new_memory 1 5 (some (codes "alice")) MemoryType.fact (codes "tea") (some (codes "m1")) ∷ [];
})

-- The second sync changes the row, and adds none.
synced :
    (sync_from_agno 5
      (codes "alice")
      (likes (codes "tea") ∷ likes (codes "mate") ∷ [])
      remembering).1.db.agent_memories
    ≡ new_memory 1 5 (some (codes "alice")) MemoryType.fact (codes "mate") (some (codes "m1")) ∷ []
unfolding sync_from_agno
synced = refl

sync_from_agno-Succeeds_example :
    Succeeds (
      sync_from_agno 5
        (codes "alice")
        (likes (codes "tea") ∷ likes (codes "mate") ∷ [])
        remembering)
sync_from_agno-Succeeds_example =
    sync_from_agno-Succeeds 5 (codes "alice") (likes (codes "tea") ∷ likes (codes "mate") ∷ [])
      remembering (tt, (tt, tt))

-- A fact that is remembered without an identifier of agno's.
remembered :
    (remember_fact 5 (codes "alice") (codes "coffee") remembering).0
    ≡ ok (codes "Đã ghi nhớ: coffee")
unfolding remember_fact
remembered = refl

abbrev version_of : ℕ → Prompt
version_of n = record {
  id = n;
  code = codes "greeting";
  version = n;
  content = codes "Be kind.";
  status = PromptStatus.active;
  deleted = false;
}

abbrev prompted : Db
prompted = record empty_db { prompts = version_of 1 ∷ version_of 3 ∷ version_of 2 ∷ [] }

next_is_four : next_version (codes "greeting") prompted ≡ 4
unfolding next_version
next_is_four = refl

composed :
    compose (record enterprise { shared_prompt_id = some 3 }) sales seller prompted
    ≡ codes "# Organization Context (enterprise)\nBe kind."
unfolding compose
composed = refl

next_version_above_example : 1 < next_version (codes "greeting") prompted
next_version_above_example =
    next_version_above (codes "greeting") prompted (version_of 1) (inl refl) refl

abbrev local_model : ModelRegistry
local_model = record {
  id = 9;
  provider = codes "openai_like";
  model = codes "llama";
  temperature = 700;
  max_tokens = 4096;
  base_url = none;
  api_key = none;
  extra_client_params = none;
  enabled = true;
  deleted = false;
  cost_per_1k_input_tokens = none;
  cost_per_1k_output_tokens = none;
}

abbrev registered : Db
registered = record empty_db { model_registry = local_model ∷ [] }

default_found : resolve_registry_entry none (some 9) registered ≡ ok local_model
unfolding resolve_registry_entry
default_found = refl

-- A local model needs its address.
no_address :
    build_agno_model (λ t. t) all_on local_model none
    ≡ err (raised ErrorClass.validation_failed (text "openai_like requires base_url"))
unfolding build_agno_model
no_address = refl
