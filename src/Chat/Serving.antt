-- ===== src/Chat/Serving.antt =====
-- What `resolve_dispatch_context` promises about the rows that serve a request.
use aiplatform.Shared.{
  ℕ, ◌≡◌, sym, ◌∙◌, true, false, ◌&&◌, not, Option, none, some, [], ◌∷◌, Text, ◌==◌, same_text,
  first_where-holds, All, arith, inl, inr, Bool-cases, Option-cases, is_filled,
}
use mathlib.Core.Path.{subst}
use aiplatform.Exec.{ok}
use aiplatform.Models.{AgentOs, Team}
use aiplatform.State.{Db}
use aiplatform.Chat.Dispatch.{
  DispatchContext, runtime_context, team_context, root_context, team_rows, build_team_context,
  build_team_contexts, get_agent_os_by_code, get_team_by_code, enabled_os, enabled_team,
  team_context_by_code, resolve_team_context_by_code, resolve_root_context,
  resolve_dispatch_context,
}
use aiplatform.Chat.Members.{
  IsUsable, IsTeamOf, Result-cases, build-IsUsable, contexts-IsUsable, team_rows-IsTeamOf,
}

abbrev pub IsLive : AgentOs → Type 0
IsLive os = (os.enabled ≡ true) × (os.deleted ≡ false)

-- A context for a chat request.
abbrev pub IsResolved : DispatchContext → Type 0
IsResolved (runtime_context os t a) = ⊥
IsResolved (team_context c) = IsLive c.agent_os × IsUsable c.agent_os c
IsResolved (root_context os cs) = IsLive os × (is_filled cs ≡ true) × All (IsUsable os) cs

found_os :
    (code : Text) (d : Db) (os : AgentOs)
    → get_agent_os_by_code code d ≡ some os
    → os.deleted ≡ false
unfolding get_agent_os_by_code
found_os code d os h =
    let q = first_where-holds (λ a. same_text a.code code && not a.deleted) d.agent_oses os h in
    ground (arith, q)

IsLive-of_code : (code : Text) (d : Db) (os : AgentOs) → enabled_os code d ≡ some os → IsLive os
IsLive-of_code code d os h = elim (Option-cases (get_agent_os_by_code code d)) [
  | inl e ↦ cc (rw (enabled_os, e) at h)
  | inr (a, e) ↦ elim (Bool-cases a.enabled) [
    | inl on ↦
        let q : a ≡ os = cc (rw (enabled_os, e, on) at h) in
        subst IsLive q (on, found_os code d a e)
    | inr off ↦ cc (rw (enabled_os, e, off) at h)
  ]
]

found_team :
    (os : ℕ) (code : Text) (d : Db) (t : Team)
    → get_team_by_code os code d ≡ some t
    → (t.deleted ≡ false) × (t.agent_os_id ≡ os)
unfolding get_team_by_code
found_team os code d t h =
    let q =
      first_where-holds (λ x. x.agent_os_id == os && (same_text x.code code && not x.deleted))
        d.teams t h in
    (ground (arith, q), ground (arith, q))

usable_team :
    (os : AgentOs) (code : Text) (d : Db) (t : Team)
    → enabled_team os.id code d ≡ some t
    → IsTeamOf os t
usable_team os code d t h = elim (Option-cases (get_team_by_code os.id code d)) [
  | inl e ↦ cc (rw (enabled_team, e) at h)
  | inr (a, e) ↦ elim (Bool-cases a.enabled) [
    | inl on ↦
        let q : a ≡ t = cc (rw (enabled_team, e, on) at h) in
        let (live, mine) = found_team os.id code d a e in subst (IsTeamOf os) q (on, live, mine)
    | inr off ↦ cc (rw (enabled_team, e, off) at h)
  ]
]

team_code-IsResolved :
    (os_code code : Text) (d : Db) (c : DispatchContext)
    → resolve_team_context_by_code os_code code d ≡ ok c
    → IsResolved c
unfolding resolve_team_context_by_code
team_code-IsResolved os_code code d c h = elim (Option-cases (enabled_os os_code d)) [
  | inl e ↦ cc (rw (resolve_team_context_by_code, team_context_by_code, e) at h)
  | inr (os, e) ↦ elim (Option-cases (enabled_team os.id code d)) [
    | inl f ↦ cc (rw (resolve_team_context_by_code, team_context_by_code, e, f) at h)
    | inr (t, f) ↦ elim (Result-cases (build_team_context os t d)) [
      | inr (m, g) ↦ cc (rw (resolve_team_context_by_code, team_context_by_code, e, f, g) at h)
      | inl (x, g) ↦
          let q : team_context x ≡ c =
            cc (rw (resolve_team_context_by_code, team_context_by_code, e, f, g) at h) in
          let u = build-IsUsable os t d x (usable_team os code d t f) g in
          subst IsResolved q (
            subst (λ (a : AgentOs). IsLive a × IsUsable a x) (sym u.0)
              (IsLive-of_code os_code d os e, u))
    ]
  ]
]

root_code-IsResolved :
    (os_code : Text) (d : Db) (c : DispatchContext)
    → resolve_root_context os_code d ≡ ok c
    → IsResolved c
unfolding resolve_root_context
root_code-IsResolved os_code d c h = elim (Option-cases (enabled_os os_code d)) [
  | inl e ↦ cc (rw (resolve_root_context, e) at h)
  | inr (os, e) ↦ elim (Bool-cases (is_filled (team_rows os.id d))) [
    | inr f ↦ cc (rw (resolve_root_context, e, f) at h)
    | inl f ↦ elim (Result-cases (build_team_contexts os (team_rows os.id d) d)) [
      | inr (m, g) ↦ cc (rw (resolve_root_context, e, f, g) at h)
      | inl (xs, g) ↦
          let q : root_context os xs ≡ c = cc (rw (resolve_root_context, e, f, g) at h) in
          let (filled, usable) =
            contexts-IsUsable os (team_rows os.id d) d xs (team_rows-IsTeamOf os d) g in
          subst IsResolved q (IsLive-of_code os_code d os e, filled ∙ f, usable)
    ]
  ]
]

-- A chat request is served by live rows only: the context that `resolve_dispatch_context` finds
-- is of a team, or of one or more teams, that are enabled and not deleted and belong to an AgentOS
-- that is enabled and not deleted, each with at least one member and only with members of its
-- own that are enabled and not deleted. A context of a single agent is never found.
pub resolve_dispatch_context-IsResolved :
    (os_code : Text) (team_code : Option Text) (d : Db) (c : DispatchContext)
    → resolve_dispatch_context os_code team_code d ≡ ok c
    → IsResolved c
unfolding resolve_dispatch_context
resolve_dispatch_context-IsResolved os_code none d c h = root_code-IsResolved os_code d c h
resolve_dispatch_context-IsResolved os_code (some []) d c h = root_code-IsResolved os_code d c h
resolve_dispatch_context-IsResolved os_code (some (x ∷ xs)) d c h =
    team_code-IsResolved os_code (x ∷ xs) d c h
