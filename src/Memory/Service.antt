-- ===== src/Memory/Service.antt =====
-- app/services/memory_service.py and app/repositories/memory_repository.py.
use aiplatform.Shared.{
  ℕ, suc, Bool, false, ◌&&◌, not, Option, none, some, List, [], ◌∷◌, ◌++◌, Text, ◌==◌, same_text,
  first_where, is_some, is_filled, if◌then◌else◌, update_where, select,
}
use aiplatform.Errors.{about, text, raised, ErrorClass}
use aiplatform.Exec.{ok, Exec, pure, raise_if, or_raise, gets, modify, ◌>>=◌, ◌>>◌}
use aiplatform.Models.{AgentMemory, MemoryType}
use aiplatform.State.{Db, World, change}

-- What agno's memory manager extracted: `memory_id` and `memory`.
pub record UserMemory : Type 0 where
  pub memory_id : Option Text
  pub memory : Option Text

-- The condition of `get_by_source_memory_id`; a NULL is equal to nothing.
abbrev pub is_from : ℕ → Text → Text → AgentMemory → Bool
is_from agent_id user_id source r = r.agent_id == agent_id && (elim r.user_id [
  | none ↦ false
  | some u ↦
      same_text u user_id && elim r.source_memory_id [ none ↦ false | some s ↦ same_text s source ]
])

unfoldable pub get_by_source_memory_id : ℕ → Text → Text → Db → Option AgentMemory
get_by_source_memory_id agent_id user_id source d =
    first_where (is_from agent_id user_id source) d.agent_memories

abbrev pub new_memory : ℕ → ℕ → Option Text → MemoryType → Text → Option Text → AgentMemory
new_memory id agent_id user_id kind content source = record {
  id = id;
  agent_id = agent_id;
  user_id = user_id;
  memory_type = kind;
  content = content;
  source_memory_id = source;
}

-- `uq_agent_memory_source`: is there a row of the same agent, user and source, none of them NULL?
unfoldable pub conflicts : ℕ → Option Text → Option Text → Db → Bool
unfolding get_by_source_memory_id
conflicts agent_id none source d = false
conflicts agent_id (some u) none d = false
conflicts agent_id (some u) (some s) d = is_some (get_by_source_memory_id agent_id u s d)

abbrev pub insert_memory : AgentMemory → Exec World AgentMemory
insert_memory m w = (
  ok m,
  change (λ d. record d { next_id = suc d.next_id; agent_memories = d.agent_memories ++ m ∷ [] }) w,
)

-- `MemoryService.record`
unfoldable pub record_memory :
    ℕ → Option Text → MemoryType → Text → Option Text → Exec World AgentMemory
unfolding conflicts
record_memory agent_id user_id kind content source = do
  taken ← gets (λ w. conflicts agent_id user_id source w.db)
  raise_if taken (raised ErrorClass.other (text "IntegrityError: uq_agent_memory_source"))
  id ← gets (λ w. w.db.next_id)
  insert_memory (new_memory id agent_id user_id kind content source)

-- `existing.content = content`, by the identifier of the row.
unfoldable pub set_content : ℕ → Text → World → World
set_content id content = change λ d. record d {
  agent_memories =
      update_where (λ r. r.id == id) (λ r. record r { content = content }) d.agent_memories;
}

unfoldable pub record_fact : ℕ → Text → Text → Option Text → Exec World AgentMemory
unfolding record_memory
record_fact agent_id user_id content source =
    record_memory agent_id (some user_id) MemoryType.fact content source

-- An entry with a source: a row that is there gets the new content, or a row is added.
unfoldable pub upsert : ℕ → Text → Text → Text → Exec World AgentMemory
unfolding get_by_source_memory_id set_content record_fact
upsert agent_id user_id source content w =
    elim (get_by_source_memory_id agent_id user_id source w.db) [
      | some r ↦ (ok (record r { content = content }), set_content r.id content w)
      | none ↦ record_fact agent_id user_id content (some source) w
    ]

-- One round of the loop, for an entry with content.
unfoldable pub sync_entry : ℕ → Text → Option Text → Text → Exec World AgentMemory
unfolding upsert record_fact
sync_entry agent_id user_id none content = record_fact agent_id user_id content none
sync_entry agent_id user_id (some []) content = record_fact agent_id user_id content (some [])
sync_entry agent_id user_id (some (c ∷ cs)) content = upsert agent_id user_id (c ∷ cs) content

-- `if not content: continue`
unfoldable pub has_content : UserMemory → Option Text
has_content um = elim um.memory [ none ↦ none | some t ↦ if is_filled t then some t else none ]

unfoldable pub sync_from_agno : ℕ → Text → List UserMemory → Exec World (List AgentMemory)
unfolding sync_entry has_content
sync_from_agno agent_id user_id [] = pure []
sync_from_agno agent_id user_id (um ∷ ums) = elim (has_content um) [
  | none ↦ sync_from_agno agent_id user_id ums
  | some content ↦ do
    m ← sync_entry agent_id user_id um.memory_id content
    ms ← sync_from_agno agent_id user_id ums
    pure (m ∷ ms)
]

-- `hard_delete` of the row.
unfoldable pub delete : ℕ → Exec World (Unit {0})
delete id = do
  found ← gets (λ w. first_where (λ r. r.id == id) w.db.agent_memories)
  m ← or_raise found (raised ErrorClass.not_found (about "AgentMemory not found" id))
  modify (
      change (λ d. record d { agent_memories = select (λ r. not (r.id == m.id)) d.agent_memories }))
