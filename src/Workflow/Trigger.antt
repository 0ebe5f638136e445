-- ===== src/Workflow/Trigger.antt =====
-- app/core/workflow_trigger_context.py: workflows that trigger workflows.
use aiplatform.Shared.{
  ℕ, suc, ◌≤◌, ◌≡◌, refl, Bool, false, ◌||◌, List, [], ◌∷◌, Text, arith, leb, min, length,
  same_text, Bool-cases, inl, inr, if◌then◌else◌,
}
use mathlib.Core.Path.{subst}
use aiplatform.Errors.{about, text, raised, ErrorClass}
use aiplatform.Exec.{Result, ok, err}

-- `_depth_var` and `_visited_var`
pub record CallChain : Type 0 where
  pub depth : ℕ
  pub visited : List Text

abbrev pub max_global_depth : ℕ
max_global_depth = 5

-- `workflow_code in visited`
abbrev pub is_visited : Text → List Text → Bool
is_visited code [] = false
is_visited code (x ∷ xs) = same_text code x || is_visited code xs

-- What holds inside of the `with` block; at its end the chain is as before.
unfoldable pub enter_workflow_trigger : Text → ℕ → CallChain → Result CallChain
enter_workflow_trigger code max_depth c =
    if leb (min max_depth max_global_depth) c.depth
    then err (
        raised ErrorClass.runtime_execution_failed
          (about "Workflow trigger depth limit reached" c.depth))
    else (if is_visited code c.visited
        then err (raised ErrorClass.runtime_execution_failed (text "Cycle detected"))
        else ok (record { depth = suc c.depth; visited = code ∷ c.visited }))

abbrev pub no_trigger : CallChain
no_trigger = record { depth = 0; visited = [] }

-- The chains of calls of the tool that triggers workflows, each made inside of the one before. A
-- run that a client, a schedule or a webhook starts is not in them: `run_workflow` does not enter
-- the guard.
pub data IsTriggerChain : CallChain → Type 0 where
  outside : IsTriggerChain no_trigger
  inside :
      (code : Text) (max_depth : ℕ) (c d : CallChain)
      → IsTriggerChain c
      → enter_workflow_trigger code max_depth c ≡ ok d
      → IsTriggerChain d

-- No workflow stands twice in a chain.
abbrev pub IsAcyclic : List Text → Type 0
IsAcyclic [] = Unit
IsAcyclic (x ∷ xs) = (is_visited x xs ≡ false) × IsAcyclic xs

-- The chain is bounded, its depth counts it, and no workflow is in it twice.
pub record IsSafe (c : CallChain) : Type 0 where
  pub bounded : c.depth ≤ max_global_depth
  pub counted : c.depth ≡ length c.visited
  pub acyclic : IsAcyclic c.visited

enter-IsSafe :
    (code : Text) (max_depth : ℕ) (c d : CallChain)
    → IsSafe c
    → enter_workflow_trigger code max_depth c ≡ ok d
    → IsSafe d
unfolding enter_workflow_trigger
enter-IsSafe code max_depth c d safe h =
    elim (Bool-cases (leb (min max_depth max_global_depth) c.depth)) [
      | inl e ↦ cc (rw (enter_workflow_trigger, e) at h)
      | inr e ↦ elim (Bool-cases (is_visited code c.visited)) [
        | inl v ↦ cc (rw (enter_workflow_trigger, e, v) at h)
        | inr v ↦
            let q : record { depth = suc c.depth; visited = code ∷ c.visited } ≡ d =
              cc (rw (enter_workflow_trigger, e, v) at h) in
            subst IsSafe q (record {
              bounded = ground (arith, e);
              counted = omega (arith, safe.counted);
              acyclic = (v, safe.acyclic);
            })
      ]
    ]

-- Whatever workflows are triggered by the tool inside of one another, and whatever depth each skill
-- asks for: at most five such triggers are nested, and no two of them are for the same workflow.
-- The run that was started without the tool, around them all, is not counted or looked at.
pub IsTriggerChain-IsSafe : (c : CallChain) → IsTriggerChain c → IsSafe c
IsTriggerChain-IsSafe _ outside = record { bounded = omega arith; counted = refl; acyclic = tt }
IsTriggerChain-IsSafe _ (inside code max_depth c d r h) =
    enter-IsSafe code max_depth c d (IsTriggerChain-IsSafe c r) h
