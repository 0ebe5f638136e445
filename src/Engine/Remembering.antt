-- ===== src/Engine/Remembering.antt =====
-- app/agno_runtime/explicit_memory.py: a call of the tool that remembers a fact.
use aiplatform.Shared.{ℕ, none, some, ◌++◌, Text, codes}
use aiplatform.Exec.{Exec, pure, ◌>>=◌}
use aiplatform.Models.{MemoryType}
use aiplatform.State.{World}
use aiplatform.Memory.Service.{record_memory}

-- For the agent and the user that the tool is bound to.
unfoldable pub remember_fact : ℕ → Text → Text → Exec World Text
unfolding record_memory
remember_fact agent_id user_id fact = do
  _ ← record_memory agent_id (some user_id) MemoryType.fact fact none
  pure (codes "Đã ghi nhớ: " ++ fact)
