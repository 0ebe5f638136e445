-- ===== src/Plan/Unreachable.antt =====
-- The agent steps of a plan, and the order of its steps.
use aiplatform.Shared.{
  ℕ, suc, ◌≡◌, refl, ap, sym, ◌∙◌, inl, inr, false, ◌&&◌, ◌||◌, not, Option, none, some, List, [],
  ◌∷◌, Text, arith, ◌==◌, same_text, is_filled, All, All-Member, Member, first_where, Bool-cases,
  Option-cases, sort_by, insert_by,
}
use mathlib.Core.Path.{subst}
use aiplatform.Errors.{Failure, text, raised, ErrorClass}
use aiplatform.Exec.{Result, err, resume}
use aiplatform.Settings.{Settings}
use aiplatform.Models.{Team, PlanStep, PlanStepTargetType}
use aiplatform.State.{Db, World, Outside}
use aiplatform.Chat.Dispatch.{enabled_os, enabled_team, get_team_by_code}
use aiplatform.Plan.Building.{build_plan, number_from, PlanStepRequest, target_of, default_step}
use aiplatform.Plan.Targets.{
  attempt, resolve_target, resolve_kind, resolve_context, reply_of, receive, or_empty,
}

-- No team has the empty code: app/schemas/team.py refuses it.
abbrev pub NoEmptyCode : Db → Type 0
NoEmptyCode d = All (λ t. same_text t.code [] ≡ false) d.teams

first_where-none :
    (os : ℕ) (ts : List Team)
    → All (λ t. same_text t.code [] ≡ false) ts
    → first_where (λ t. t.agent_os_id == os && (same_text t.code [] && not t.deleted)) ts ≡ none
first_where-none os [] h = refl
first_where-none os (t ∷ ts) (h, hs) = elim (Bool-cases (t.agent_os_id == os)) [
  | inl e ↦ rw e (rw h (first_where-none os ts hs))
  | inr e ↦ rw e (first_where-none os ts hs)
]

no_team : (os : ℕ) (d : Db) → NoEmptyCode d → enabled_team os [] d ≡ none
unfolding get_team_by_code
no_team os d h = rw (enabled_team, first_where-none os d.teams h) refl

resolve_context_fails :
    (os : Text) (agent : Option Text) (d : Db)
    → NoEmptyCode d
    → (e : Failure) × (resolve_context os [] agent d ≡ err e)
unfolding resolve_context
resolve_context_fails os agent d h = elim (Option-cases (enabled_os os d)) [
  | inl k ↦ (
    raised ErrorClass.runtime_execution_failed (text "AgentOS not found or disabled"),
    rw (resolve_context, k) refl,
  )
  | inr (a, k) ↦ (
    raised ErrorClass.runtime_execution_failed (text "Team not found or disabled"),
    rw (resolve_context, k) (rw (no_team a.id d h) refl),
  )
]

target_of_agent : (t : Option Text) → target_of t ≡ PlanStepTargetType.agent → or_empty t ≡ []
unfolding target_of
target_of_agent none h = refl
target_of_agent (some []) h = refl
target_of_agent (some (c ∷ cs)) h = cc

-- Every step of a plan has the target that its team code asks for.
abbrev IsTargeted : PlanStep → Type 0
IsTargeted s = s.target_type ≡ target_of s.team_code

number_from-IsTargeted :
    (os : Text) (i : ℕ) (raws : List PlanStepRequest) → All IsTargeted (number_from os i raws)
unfolding number_from
number_from-IsTargeted os i [] = tt
number_from-IsTargeted os i (raw ∷ raws) = (refl, number_from-IsTargeted os (suc i) raws)

module _ (settings : Settings) (message os : Text) (team agent : Option Text)
    (raws : List PlanStepRequest) where
  abbrev steps : List PlanStep
  steps = (build_plan settings message os team agent raws).steps

  built-IsTargeted : All IsTargeted steps
  unfolding build_plan
  built-IsTargeted =
      elim (Bool-cases (not settings.feature_planning_engine || not (is_filled raws))) [
        | inl e ↦
            let q : steps ≡ default_step os team agent ∷ [] = rw (steps, e) refl in
            subst (All IsTargeted) (sym q) (refl, tt)
        | inr e ↦
            let q : steps ≡ number_from os 0 raws = rw (steps, e) refl in
            subst (All IsTargeted) (sym q) (number_from-IsTargeted os 0 raws)
      ]

-- An agent step of a plan never runs: whatever the plan was built from, each attempt at such a
-- step raises before agno is called and changes nothing. The planner makes a step an agent step
-- just when it has no team code, and the engine looks the agent up in the team of that code. No
-- team has the empty code.
pub build_plan_agent_fails :
    (o : Outside) (settings : Settings) (message os : Text) (team agent : Option Text)
    (raws : List PlanStepRequest) (s : PlanStep) (x : Text) (w : World)
    → NoEmptyCode w.db
    → Member s (build_plan settings message os team agent raws).steps
    → s.target_type ≡ PlanStepTargetType.agent
    → (e : Failure) × (attempt o s x w ≡ (err e, w))
unfolding attempt resolve_target resolve_kind
build_plan_agent_fails o settings message os team agent raws s x w h m k =
    let targeted =
      All-Member IsTargeted s _ m (built-IsTargeted settings message os team agent raws) in
    let q : or_empty s.team_code ≡ [] = target_of_agent s.team_code (sym targeted ∙ k) in
    let (e, f) = resolve_context_fails s.agent_os_code s.agent_code w.db h in
    let fails : resolve_target s w.db ≡ err e =
      ap (λ (t : PlanStepTargetType). resolve_kind t s.agent_os_code s.team_code s.agent_code w.db)
        k
      ∙ ap (λ (t : Text). resolve_context s.agent_os_code t s.agent_code w.db) q
      ∙ f in
    (
      e,
      ap
          (λ (r : Result ℕ).
            resume r (λ id v. receive o (reply_of o s.target_type v.calls id x) v) w)
          fails,
    )

sort_from :
    (os : Text) (i : ℕ) (raws : List PlanStepRequest)
    → sort_by (λ s. s.order) (number_from os i raws) ≡ number_from os i raws
unfolding sort_by number_from insert_by
sort_from os i [] = refl
sort_from os i (raw ∷ []) = refl
sort_from os i (raw ∷ next ∷ raws) = rw (sort_from os (suc i) (next ∷ raws)) (ground arith)

-- A plan is executed in the order in which the caller lists its steps: sorting them by their
-- order, as the engine does, gives the list itself.
pub build_plan-sort_by :
    (settings : Settings) (message os : Text) (team agent : Option Text)
    (raws : List PlanStepRequest)
    → let plan = build_plan settings message os team agent raws in
      sort_by (λ s. s.order) plan.steps ≡ plan.steps
unfolding build_plan
build_plan-sort_by settings message os team agent raws =
    elim (Bool-cases (not settings.feature_planning_engine || not (is_filled raws))) [
      | inl e ↦ rw e (unfold sort_by in refl)
      | inr e ↦ rw e (sort_from os 0 raws)
    ]
