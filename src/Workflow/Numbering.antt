-- ===== src/Workflow/Numbering.antt =====
-- What `replace_steps` leaves in `workflow_steps`.
use aiplatform.Shared.{
  ℕ, suc, ◌≡◌, refl, sym, ap, ◌∙◌, Bool, not, Option, List, [], ◌∷◌, ◌++◌, ◌==◌, ==-refl, select,
  inl, inr, Bool-cases,
}
use mathlib.Core.Path.{subst}
use aiplatform.Models.{WorkflowStep, WorkflowStepType}
use aiplatform.State.{World}
use aiplatform.Workflow.Executor.{sort_steps}
use aiplatform.Workflow.Session.{list_by_workflow}
use aiplatform.Workflow.Pipeline.{IsGapless, sort_steps-IsGapless}
use aiplatform.Workflow.Registry.{ResolvedStep, number_steps, replace_steps}

number_steps-IsGapless :
    (wf id k : ℕ) (ss : List ResolvedStep) → IsGapless k (number_steps wf id k ss)
unfolding number_steps
number_steps-IsGapless wf id k [] = tt
number_steps-IsGapless wf id k (s ∷ ss) = (refl, number_steps-IsGapless wf (suc id) (suc k) ss)

select-append {ℓ} :
    {A : Type ℓ} (p : A → Bool) (xs ys : List A) → select p (xs ++ ys) ≡ select p xs ++ select p ys
select-append p [] ys = refl
select-append p (x ∷ xs) ys = elim (Bool-cases (p x)) [
  | inl e ↦ rw e (ap (λ zs. x ∷ zs) (select-append p xs ys))
  | inr e ↦ rw e (select-append p xs ys)
]

select_numbered :
    (wf id k : ℕ) (ss : List ResolvedStep)
    → select (λ s. s.workflow_id == wf) (number_steps wf id k ss) ≡ number_steps wf id k ss
unfolding number_steps
select_numbered wf id k [] = refl
select_numbered wf id k (s ∷ ss) =
    rw (==-refl wf) (rw (select_numbered wf (suc id) (suc k) ss) refl)

select_removed :
    (wf : ℕ) (ss : List WorkflowStep)
    → select (λ s. s.workflow_id == wf) (select (λ s. not (s.workflow_id == wf)) ss) ≡ []
select_removed wf [] = refl
select_removed wf (s ∷ ss) = elim (Bool-cases (s.workflow_id == wf)) [
  | inl e ↦ rw e (select_removed wf ss)
  | inr e ↦ rw e (rw e (select_removed wf ss))
]

-- What a step runs.
abbrev pub TargetOf : Type 0
TargetOf = WorkflowStepType × Option ℕ × Option ℕ

-- The steps that were submitted, in their order, with what each one runs; and the same of rows.
abbrev pub submitted : List ResolvedStep → List TargetOf
submitted [] = []
submitted (s ∷ ss) = (s.step_type, s.agent_id, s.team_id) ∷ submitted ss

abbrev pub stored : List WorkflowStep → List TargetOf
stored [] = []
stored (s ∷ ss) = (s.step_type, s.agent_id, s.team_id) ∷ stored ss

number_steps-stored :
    (wf id k : ℕ) (ss : List ResolvedStep) → stored (number_steps wf id k ss) ≡ submitted ss
unfolding number_steps
number_steps-stored wf id k [] = refl
number_steps-stored wf id k (s ∷ ss) =
    ap (λ (zs : List TargetOf). (s.step_type, s.agent_id, s.team_id) ∷ zs)
      (number_steps-stored wf (suc id) (suc k) ss)

-- However many steps there were before, the steps of a workflow after `replace_steps` are those
-- submitted, in their order and each for the same agent or team, numbered from 0 without a gap.
pub replace_steps-IsGapless :
    (wf : ℕ) (ss : List ResolvedStep) (w : World)
    → (stored (list_by_workflow wf (replace_steps wf ss w).db) ≡ submitted ss)
      × IsGapless 0 (list_by_workflow wf (replace_steps wf ss w).db)
unfolding list_by_workflow replace_steps
replace_steps-IsGapless wf ss w =
    let mine : WorkflowStep → Bool = λ s. s.workflow_id == wf in
    let new = number_steps wf w.db.next_id 0 ss in
    let gapless = number_steps-IsGapless wf w.db.next_id 0 ss in
    let old = select (λ s. not (s.workflow_id == wf)) w.db.workflow_steps in
    let q : select mine (old ++ new) ≡ new =
      select-append mine old new
      ∙ ap (λ (zs : List WorkflowStep). zs ++ select mine new)
          (select_removed wf w.db.workflow_steps)
      ∙ select_numbered wf w.db.next_id 0 ss in
    let r = ap sort_steps q ∙ sort_steps-IsGapless 0 new gapless in
    (
      ap stored r ∙ number_steps-stored wf w.db.next_id 0 ss,
      subst (λ (zs : List WorkflowStep). IsGapless 0 zs) (sym r) gapless,
    )
