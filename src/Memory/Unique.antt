-- ===== src/Memory/Unique.antt =====
-- One row for each memory of agno.
use aiplatform.Shared.{
  ℕ, ◌≡◌, refl, inl, inr, Bool, false, not, Option, none, some, List, [], ◌∷◌, ◌++◌, Text, arith,
  ◌==◌, All, All-last, Bool-cases, Option-cases, first_where, first_where-none, update_where,
  select,
}
use aiplatform.Exec.{Result, ok, err, resume, ◌>>=◌, pure}
use aiplatform.Models.{AgentMemory, MemoryType}
use aiplatform.State.{Db, World}
use aiplatform.Memory.Service.{
  UserMemory, is_from, get_by_source_memory_id, conflicts, record_memory, set_content, record_fact,
  upsert, sync_entry, sync_from_agno, delete, has_content, new_memory,
}

-- Are the two rows of the same agent, user and source?
abbrev pub clash : AgentMemory → AgentMemory → Bool
clash s r = elim s.user_id [
  | none ↦ false
  | some u ↦ elim s.source_memory_id [ none ↦ false | some t ↦ is_from s.agent_id u t r ]
]

-- No row clashes with one before it.
abbrev pub IsUnique : List AgentMemory → Type 0
IsUnique [] = Unit
IsUnique (r ∷ rs) = All (λ s. clash s r ≡ false) rs × IsUnique rs

IsUnique-last :
    (rs : List AgentMemory) (n : AgentMemory)
    → IsUnique rs
    → All (λ r. clash n r ≡ false) rs
    → IsUnique (rs ++ n ∷ [])
IsUnique-last [] n u a = (tt, tt)
IsUnique-last (r ∷ rs) n (h, u) (k, a) = (All-last _ rs n h k, IsUnique-last rs n u a)

abbrev with_content : Text → AgentMemory → AgentMemory
with_content c r = record r { content = c }

All-clash :
    (id : ℕ) (c : Text) (r : AgentMemory) (rs : List AgentMemory)
    → All (λ s. clash s r ≡ false) rs
    → All (λ s. clash s r ≡ false) (update_where (λ x. x.id == id) (with_content c) rs)
All-clash id c r [] h = tt
All-clash id c r (x ∷ rs) (h, hs) = elim (Bool-cases (x.id == id)) [
  | inl e ↦ rw e (h, All-clash id c r rs hs)
  | inr e ↦ rw e (h, All-clash id c r rs hs)
]

IsUnique-updated :
    (id : ℕ) (c : Text) (rs : List AgentMemory)
    → IsUnique rs
    → IsUnique (update_where (λ x. x.id == id) (with_content c) rs)
IsUnique-updated id c [] u = tt
IsUnique-updated id c (r ∷ rs) (h, u) = elim (Bool-cases (r.id == id)) [
  | inl e ↦ rw e (All-clash id c r rs h, IsUnique-updated id c rs u)
  | inr e ↦ rw e (All-clash id c r rs h, IsUnique-updated id c rs u)
]

All-selected :
    (P : AgentMemory → Type 0) (p : AgentMemory → Bool) (rs : List AgentMemory)
    → All P rs
    → All P (select p rs)
All-selected P p [] h = tt
All-selected P p (r ∷ rs) (h, hs) = elim (Bool-cases (p r)) [
  | inl e ↦ rw e (h, All-selected P p rs hs)
  | inr e ↦ rw e (All-selected P p rs hs)
]

IsUnique-selected :
    (p : AgentMemory → Bool) (rs : List AgentMemory) → IsUnique rs → IsUnique (select p rs)
IsUnique-selected p [] u = tt
IsUnique-selected p (r ∷ rs) (h, u) = elim (Bool-cases (p r)) [
  | inl e ↦ rw e (All-selected _ p rs h, IsUnique-selected p rs u)
  | inr e ↦ rw e (IsUnique-selected p rs u)
]

All-refl : (rs : List AgentMemory) → All (λ _. false ≡ false) rs
All-refl [] = tt
All-refl (r ∷ rs) = (refl, All-refl rs)

-- Where the constraint is not violated, the new row clashes with none.
conflicts-clash :
    (id agent_id : ℕ) (user source : Option Text) (kind : MemoryType) (c : Text) (d : Db)
    → conflicts agent_id user source d ≡ false
    → All (λ r. clash (new_memory id agent_id user kind c source) r ≡ false) d.agent_memories
unfolding conflicts get_by_source_memory_id
conflicts-clash id agent_id none source kind c d h = All-refl d.agent_memories
conflicts-clash id agent_id (some u) none kind c d h = All-refl d.agent_memories
conflicts-clash id agent_id (some u) (some s) kind c d h =
    first_where-none (is_from agent_id u s) d.agent_memories (ground (arith, h))

abbrev Keeps : World → Type 0
Keeps w = IsUnique w.db.agent_memories

record_memory-Keeps :
    (agent_id : ℕ) (user source : Option Text) (kind : MemoryType) (c : Text) (w : World)
    → Keeps w
    → Keeps (record_memory agent_id user kind c source w).1
unfolding record_memory
record_memory-Keeps agent_id user source kind c w u =
    elim (Bool-cases (conflicts agent_id user source w.db)) [
      | inl t ↦ rw t u
      | inr f ↦ rw f (
          IsUnique-last w.db.agent_memories _ u
            (conflicts-clash w.db.next_id agent_id user source kind c w.db f))
    ]

upsert-Keeps :
    (agent_id : ℕ) (user source c : Text) (w : World)
    → Keeps w
    → Keeps (upsert agent_id user source c w).1
unfolding upsert set_content record_fact
upsert-Keeps agent_id user source c w u =
    elim (Option-cases (get_by_source_memory_id agent_id user source w.db)) [
      | inl e ↦
          rw (upsert, e)
            (record_memory-Keeps agent_id (some user) (some source) MemoryType.fact c w u)
      | inr (r, e) ↦ rw (upsert, e) (IsUnique-updated r.id c w.db.agent_memories u)
    ]

sync_entry-Keeps :
    (agent_id : ℕ) (user : Text) (source : Option Text) (c : Text) (w : World)
    → Keeps w
    → Keeps (sync_entry agent_id user source c w).1
unfolding sync_entry record_fact
sync_entry-Keeps agent_id user none c w u =
    record_memory-Keeps agent_id (some user) none MemoryType.fact c w u
sync_entry-Keeps agent_id user (some []) c w u =
    record_memory-Keeps agent_id (some user) (some []) MemoryType.fact c w u
sync_entry-Keeps agent_id user (some (x ∷ xs)) c w u = upsert-Keeps agent_id user (x ∷ xs) c w u

abbrev rest_of :
    ℕ → Text → List UserMemory → AgentMemory → World → Result (List AgentMemory) × World
rest_of agent_id user ums m = sync_from_agno agent_id user ums >>= λ ms. pure (m ∷ ms)

resumed-Keeps :
    {A B : Type 0} (r : Result A) (f : A → World → Result B × World) (w : World)
    → ((a : A) → (v : World) → Keeps v → Keeps (f a v).1)
    → Keeps w
    → Keeps (resume r f w).1
resumed-Keeps (ok a) f w h u = h a w u
resumed-Keeps (err e) f w h u = u

sync-Keeps :
    (agent_id : ℕ) (user : Text) (ums : List UserMemory) (w : World)
    → Keeps w
    → Keeps (sync_from_agno agent_id user ums w).1
unfolding sync_from_agno
sync-Keeps agent_id user [] w u = u
sync-Keeps agent_id user (um ∷ ums) w u = elim (Option-cases (has_content um)) [
  | inl e ↦ rw (sync_from_agno, e) (sync-Keeps agent_id user ums w u)
  | inr (c, e) ↦
      let entry = sync_entry agent_id user um.memory_id c w in
      rw (sync_from_agno, e)
        (resumed-Keeps entry.0 (rest_of agent_id user ums) entry.1
          (λ m v k.
            let r = sync_from_agno agent_id user ums v in
            resumed-Keeps r.0 (λ ms. pure (m ∷ ms)) r.1 (λ ms x h. h)
              (sync-Keeps agent_id user ums v k))
          (sync_entry-Keeps agent_id user um.memory_id c w u))
]

delete-Keeps : (id : ℕ) (w : World) → Keeps w → Keeps (delete id w).1
unfolding delete
delete-Keeps id w u = elim (Option-cases (first_where (λ r. r.id == id) w.db.agent_memories)) [
  | inl e ↦ rw e u
  | inr (m, e) ↦ rw e (IsUnique-selected (λ r. not (r.id == m.id)) w.db.agent_memories u)
]

-- No memory of agno is stored twice: where each agent, user and source has at most one row, this
-- still holds after a memory was recorded, after a run's memories were synced, whether an insert
-- raised or not, and after a memory was deleted. Rows without a user or a source do not count.
pub memories-IsUnique :
    (agent_id id : ℕ) (user c : Text) (owner source : Option Text) (kind : MemoryType)
    (ums : List UserMemory) (w : World)
    → IsUnique w.db.agent_memories
    → IsUnique (record_memory agent_id owner kind c source w).1.db.agent_memories
      × IsUnique (sync_from_agno agent_id user ums w).1.db.agent_memories
      × IsUnique (delete id w).1.db.agent_memories
memories-IsUnique agent_id id user c owner source kind ums w u = (
  record_memory-Keeps agent_id owner source kind c w u,
  sync-Keeps agent_id user ums w u,
  delete-Keeps id w u,
)
