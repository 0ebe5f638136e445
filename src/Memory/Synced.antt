-- ===== src/Memory/Synced.antt =====
-- What a sync of agno's memories leaves in the rows.
use aiplatform.Shared.{
  ℕ, ◌≡◌, refl, ap, false, Option, none, some, List, [], ◌∷◌, Text, All, Option-cases, inl, inr,
  is_some,
}
use aiplatform.Exec.{Result, ok, resume}
use aiplatform.Models.{AgentMemory, MemoryType}
use aiplatform.State.{World}
use aiplatform.Memory.Service.{
  UserMemory, get_by_source_memory_id, conflicts, record_memory, record_fact, upsert, insert_memory,
  sync_entry, sync_from_agno, has_content, new_memory,
}

-- Agno's identifier, if there is one, is not the empty string.
abbrev pub IsIdentified : Option Text → Type 0
IsIdentified none = Unit
IsIdentified (some []) = ⊥
IsIdentified (some (c ∷ cs)) = Unit

abbrev pub Succeeds : {A : Type 0} → Result A × World → Type 0
Succeeds {A} r = (a : A) × (r.0 ≡ ok a)

module _ (agent_id : ℕ) (user : Text) where
  abbrev inserted : Text → Text → World → AgentMemory
  inserted source c w = new_memory w.db.next_id agent_id (some user) MemoryType.fact c (some source)

  -- An insert of a source that no row has.
  insert-free :
      (source c : Text) (w : World)
      → get_by_source_memory_id agent_id user source w.db ≡ none
      → upsert agent_id user source c w ≡ insert_memory (inserted source c w) w
  unfolding upsert record_fact record_memory conflicts
  insert-free source c w e =
      let free : conflicts agent_id (some user) (some source) w.db ≡ false = ap is_some e in
      rw (upsert, e) (rw free refl)

  upsert-Succeeds : (source c : Text) (w : World) → Succeeds (upsert agent_id user source c w)
  unfolding upsert
  upsert-Succeeds source c w =
      elim (Option-cases (get_by_source_memory_id agent_id user source w.db)) [
        | inl e ↦ (
          inserted source c w,
          ap (λ (x : Result AgentMemory × World). x.0) (insert-free source c w e),
        )
        | inr (r, e) ↦ (record r { content = c }, rw (upsert, e) refl)
      ]

  entry-Succeeds :
      (source : Option Text) (c : Text) (w : World)
      → IsIdentified source
      → Succeeds (sync_entry agent_id user source c w)
  unfolding sync_entry record_fact record_memory conflicts
  entry-Succeeds none c w h = (_, refl)
  entry-Succeeds (some []) c w h = absurd h
  entry-Succeeds (some (x ∷ xs)) c w h = upsert-Succeeds (x ∷ xs) c w

  resumed-Succeeds :
      {A B : Type 0} (r : Result A × World) (f : A → World → Result B × World)
      → Succeeds r
      → ((a : A) (v : World) → Succeeds (f a v))
      → Succeeds (resume r.0 f r.1)
  resumed-Succeeds r f (a, e) h = let (b, q) = h a r.1 in (b, rw e q)

  -- A sync of a run's memories never raises, and so never meets the constraint that each agent, user
  -- and source has one row, whatever was stored before and however often one memory comes in it. No
  -- identifier of agno's is the empty string.
  pub sync_from_agno-Succeeds :
      (ums : List UserMemory) (w : World)
      → All (λ (um : UserMemory). IsIdentified um.memory_id) ums
      → Succeeds (sync_from_agno agent_id user ums w)
  unfolding sync_from_agno
  sync_from_agno-Succeeds [] w h = ([], refl)
  sync_from_agno-Succeeds (um ∷ ums) w (h, hs) = elim (Option-cases (has_content um)) [
    | inl e ↦ rw (sync_from_agno, e) (sync_from_agno-Succeeds ums w hs)
    | inr (c, e) ↦
        rw (sync_from_agno, e)
          (resumed-Succeeds (sync_entry agent_id user um.memory_id c w) _
            (entry-Succeeds um.memory_id c w h)
            (λ m v.
              resumed-Succeeds (sync_from_agno agent_id user ums v) _
                (sync_from_agno-Succeeds ums v hs) (λ ms u. (m ∷ ms, refl))))
  ]
