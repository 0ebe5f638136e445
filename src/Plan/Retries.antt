-- ===== src/Plan/Retries.antt =====
-- How often a step of a plan is tried, and what comes of it.
use aiplatform.Shared.{ℕ, zero, suc, ◌+◌, ◌≤◌, ◌≡◌, List, ◌⊎◌, Bool, Text, leb, ◌==◌, update_where}
use aiplatform.Errors.{Message, raised, ErrorClass}
use aiplatform.Exec.{Result, ok, err}
use aiplatform.Models.{ExecutionPlanStepRun, PlanStep}
use aiplatform.State.{Db, World, Outside, Reply, answered, failed, calling, after_tools}
use aiplatform.Plan.Targets.{reply_of, receive}
use aiplatform.Plan.Execution.{retry, update_step_run, count_attempt, after_attempt}

-- tenacity's documentation of `stop_after_attempt`.
abbrev pub IsRetry : (ℕ → ℕ → Bool) → Type 0
IsRetry stops = (m n : ℕ) → stops m n ≡ leb m n

abbrev pub count_in : ℕ → Db → Db
count_in id d = record d {
  execution_plan_step_runs =
      update_where (λ r. r.id == id) count_attempt d.execution_plan_step_runs;
}

-- So many attempts counted in the row of a step, and no other row changed.
abbrev pub counted : ℕ → ℕ → List ExecutionPlanStepRun → List ExecutionPlanStepRun
counted id zero rs = rs
counted id (suc n) rs = counted id n (update_where (λ r. r.id == id) count_attempt rs)

module _ (o : Outside) (s : PlanStep) (x : Text) (row_id target : ℕ) where
  abbrev pub reply : ℕ → Reply
  reply n = reply_of o s.target_type n target x

  -- The answer comes after so many failures, from the `n`-th call of agno on.
  abbrev pub AnswersAfter : ℕ → ℕ → Text → Type 0
  AnswersAfter n zero y = reply n ≡ answered y
  AnswersAfter n (suc j) y = ((m : Message) × (reply n ≡ failed m)) × AnswersAfter (suc n) j y

  -- `suc j` calls fail, the last one with this message.
  abbrev pub FailsAll : ℕ → ℕ → Message → Type 0
  FailsAll n zero m = reply n ≡ failed m
  FailsAll n (suc j) m = ((k : Message) × (reply n ≡ failed k)) × FailsAll (suc n) j m

  -- Of the tables of plans, only the row of the step has changed: so many attempts were counted.
  abbrev pub Counts : ℕ → World → World → Type 0
  Counts n w v =
      (v.db.execution_plan_step_runs ≡ counted row_id n w.db.execution_plan_step_runs)
      × (v.db.execution_plan_runs ≡ w.db.execution_plan_runs)

  -- `suc last` calls may be made.
  abbrev pub Tried : ℕ → ℕ → World → Result Text × World → Type 0
  Tried n last w r =
      ((j : ℕ) × (y : Text) × (j ≤ last)
        × AnswersAfter n j y
        × (r.0 ≡ ok y)
        × (r.1.calls ≡ n + suc j)
        × Counts (suc j) w r.1)
      ⊎ ((m : Message) × FailsAll n last m
          × (r.0 ≡ err (raised ErrorClass.runtime_execution_failed m))
          × (r.1.calls ≡ n + suc last)
          × Counts (suc last) w r.1)

  -- The state after an attempt that reached agno.
  abbrev pub tried_once : World → World
  tried_once w = calling (after_tools o 0 (update_step_run row_id count_attempt w))

  round_of : (stops : Bool) (rounds k : ℕ) (r : Reply) (w : World) → Result Text × World
  round_of stops rounds k r w =
      after_attempt stops (retry o s x row_id rounds (suc k))
        (receive o r (update_step_run row_id count_attempt w))
