-- ===== src/Chat/Members.antt =====
-- The teams and members that a context for a chat request is built of.
use aiplatform.Shared.{
  ℕ, zero, suc, ◌≡◌, refl, sym, ap, ◌∙◌, Bool, true, false, ◌&&◌, not, List, [], ◌∷◌, ◌==◌, select,
  page, All, arith, ◌⊎◌, inl, inr, Bool-cases, is_filled,
}
use mathlib.Core.Path.{subst}
use aiplatform.Errors.{Failure}
use aiplatform.Exec.{Result, ok, err}
use aiplatform.Models.{AgentOs, Team, Agent}
use aiplatform.State.{Db}
use aiplatform.Chat.Dispatch.{
  TeamContext, member_rows, team_rows, with_members, build_team_context, build_team_contexts,
}

-- An agent that may serve for a team.
abbrev pub IsMember : ℕ → Agent → Type 0
IsMember team a = (a.enabled ≡ true) × (a.deleted ≡ false) × (a.team_id ≡ team)

-- A team context with somebody in it, all of whom may serve.
abbrev pub IsServing : TeamContext → Type 0
IsServing c = (is_filled c.members ≡ true) × All (IsMember c.team.id) c.members

abbrev pub IsUsable : AgentOs → TeamContext → Type 0
IsUsable os c =
    (c.agent_os ≡ os)
    × (c.team.enabled ≡ true)
    × (c.team.deleted ≡ false)
    × (c.team.agent_os_id ≡ os.id)
    × IsServing c

page-All {ℓ} : {A : Type ℓ} (P : A → Type 0) (n : ℕ) (xs : List A) → All P xs → All P (page n xs)
page-All P zero xs h = tt
page-All P (suc n) [] h = tt
page-All P (suc n) (x ∷ xs) (h, hs) = (h, page-All P n xs hs)

anything {ℓ} : {A : Type ℓ} (xs : List A) → All (λ _. Unit {0}) xs
anything [] = tt
anything (x ∷ xs) = (tt, anything xs)

-- What a query adds to what is known of the rows.
select_refine {ℓ} :
    {A : Type ℓ} (Q R : A → Type 0) (p : A → Bool) (xs : List A)
    → ((x : A) → p x ≡ true → Q x → R x)
    → All Q xs
    → All R (select p xs)
select_refine Q R p [] f h = tt
select_refine Q R p (x ∷ xs) f (h, hs) = elim (Bool-cases (p x)) [
  | inl e ↦ rw e (f x e h, select_refine Q R p xs f hs)
  | inr e ↦ rw e (select_refine Q R p xs f hs)
]

member_rows-IsMember : (team : ℕ) (d : Db) → All (IsMember team) (member_rows team d)
member_rows-IsMember team d =
    select_refine (λ a. (a.deleted ≡ false) × (a.team_id ≡ team)) (IsMember team) (λ a. a.enabled) _
      (λ a e (x, y). (e, x, y))
      (page-All _ 200 _ (
        select_refine (λ _. Unit {0}) _ (λ a. a.team_id == team && not a.deleted) d.agents
          (λ a e _. (ground (arith, e), ground (arith, e))) (anything d.agents)))

abbrev pub IsTeamOf : AgentOs → Team → Type 0
IsTeamOf os t = (t.enabled ≡ true) × (t.deleted ≡ false) × (t.agent_os_id ≡ os.id)

pub team_rows-IsTeamOf : (os : AgentOs) (d : Db) → All (IsTeamOf os) (team_rows os.id d)
team_rows-IsTeamOf os d =
    select_refine (λ t. (t.deleted ≡ false) × (t.agent_os_id ≡ os.id)) (IsTeamOf os)
      (λ t. t.enabled) _ (λ t e (x, y). (e, x, y))
      (page-All _ 200 _ (
        select_refine (λ _. Unit {0}) _ (λ t. t.agent_os_id == os.id && not t.deleted) d.teams
          (λ t e _. (ground (arith, e), ground (arith, e))) (anything d.teams)))

with_members-IsServing :
    (os : AgentOs) (t : Team) (as' : List Agent) (c : TeamContext)
    → All (IsMember t.id) as'
    → with_members os t as' ≡ ok c
    → (c.agent_os ≡ os) × (c.team ≡ t) × IsServing c
unfolding with_members
with_members-IsServing os t [] c h e = cc
with_members-IsServing os t (a ∷ as') c h e =
    let q : record { agent_os = os; team = t; members = a ∷ as' } ≡ c = cc e in
    (
      ap (λ (x : TeamContext). x.agent_os) (sym q),
      ap (λ (x : TeamContext). x.team) (sym q),
      subst IsServing q (refl, h),
    )

pub build-IsUsable :
    (os : AgentOs) (t : Team) (d : Db) (c : TeamContext)
    → IsTeamOf os t
    → build_team_context os t d ≡ ok c
    → IsUsable os c
unfolding build_team_context
build-IsUsable os t d c (on, live, mine) e =
    let (same_os, same, serving) =
      with_members-IsServing os t (member_rows t.id d) c (member_rows-IsMember t.id d) e in
    (
      same_os,
      ap (λ (x : Team). x.enabled) same ∙ on,
      ap (λ (x : Team). x.deleted) same ∙ live,
      ap (λ (x : Team). x.agent_os_id) same ∙ mine,
      serving,
    )

pub Result-cases {ℓ} :
    {A : Type ℓ} (r : Result A) → ((a : A) × (r ≡ ok a)) ⊎ ((e : Failure) × (r ≡ err e))
Result-cases (ok a) = inl (a, refl)
Result-cases (err e) = inr (e, refl)

-- Every team of the list, and as many contexts as teams.
pub contexts-IsUsable :
    (os : AgentOs) (ts : List Team) (d : Db) (cs : List TeamContext)
    → All (IsTeamOf os) ts
    → build_team_contexts os ts d ≡ ok cs
    → (is_filled cs ≡ is_filled ts) × All (IsUsable os) cs
unfolding build_team_contexts
contexts-IsUsable os [] d cs h e =
    let q : [] ≡ cs = cc e in
    subst (λ (xs : List TeamContext). (is_filled xs ≡ false) × All (IsUsable os) xs) q (refl, tt)
contexts-IsUsable os (t ∷ ts) d cs (h, hs) e = elim (Result-cases (build_team_context os t d)) [
  | inr (m, f) ↦ cc (rw f at e)
  | inl (c, f) ↦ elim (Result-cases (build_team_contexts os ts d)) [
    | inr (m, g) ↦ cc (rw (f, g) at e)
    | inl (xs, g) ↦
        let q : c ∷ xs ≡ cs = cc (rw (f, g) at e) in
        subst (λ (ys : List TeamContext). (is_filled ys ≡ true) × All (IsUsable os) ys) q
          (refl, (build-IsUsable os t d c h f, (contexts-IsUsable os ts d xs hs g).1))
  ]
]
