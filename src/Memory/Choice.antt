-- ===== src/Memory/Choice.antt =====
-- Which entry of the model registry serves an agent.
use aiplatform.Shared.{
  ℕ, ◌≡◌, ap, sym, inl, inr, true, false, ◌&&◌, not, Option, none, some, arith, ◌==◌, or_else,
  first_where-holds, Bool-cases, Option-cases,
}
use mathlib.Core.Path.{subst}
use aiplatform.Exec.{ok}
use aiplatform.Models.{ModelRegistry}
use aiplatform.State.{Db}
use aiplatform.Memory.ModelChoice.{get_entry, entry_of, resolve_registry_entry}

-- An entry that may serve for the identifier.
abbrev pub Serves : Option ℕ → ModelRegistry → Type 0
Serves wanted m = (wanted ≡ some m.id) × (m.enabled ≡ true) × (m.deleted ≡ false)

entry_of-Serves :
    (wanted : Option ℕ) (d : Db) (m : ModelRegistry) → entry_of wanted d ≡ ok m → Serves wanted m
unfolding entry_of
entry_of-Serves none d m h = cc
entry_of-Serves (some id) d m h = elim (Option-cases (get_entry id d)) [
  | inl e ↦ cc (rw (entry_of, e) at h)
  | inr (x, e) ↦ elim (Bool-cases x.enabled) [
    | inr off ↦ cc (rw (entry_of, e, off) at h)
    | inl on ↦
        let q : x ≡ m = cc (rw (entry_of, e, on) at h) in
        let found = first_where-holds (λ y. y.id == id && not y.deleted) d.model_registry x e in
        let same : x.id ≡ id = ground (arith, found) in
        let live : x.deleted ≡ false = ground (arith, found) in
        subst (Serves (some id)) q (ap some (sym same), on, live)
  ]
]

-- The model that is resolved for an agent is an entry that is enabled and not deleted: the one
-- that the agent names, or where it names none, the one that its AgentOS names.
pub resolve_registry_entry-Serves :
    (agent_model_id default_model_id : Option ℕ) (d : Db) (m : ModelRegistry)
    → resolve_registry_entry agent_model_id default_model_id d ≡ ok m
    → Serves (or_else agent_model_id default_model_id) m
unfolding resolve_registry_entry
resolve_registry_entry-Serves agent_model_id default_model_id d m h =
    entry_of-Serves (or_else agent_model_id default_model_id) d m h
