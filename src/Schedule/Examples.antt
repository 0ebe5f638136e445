-- ===== src/Schedule/Examples.antt =====
-- A schedule that is due, its firing, and the theorems applied to it.
use aiplatform.Shared.{
  ℕ, suc, ◌≡◌, ◌≢◌, refl, inl, true, false, none, some, [], ◌∷◌, arith, Member, sort_by, ◌+◌,
}
use aiplatform.Models.{WorkflowSchedule, ScheduleType, WorkflowRunStatus}
use aiplatform.State.{Db, calling}
use aiplatform.State.Examples.{empty_db, blank, echo}
use aiplatform.Workflow.Examples.{drafting, draft}
use aiplatform.Clock.{timestamp}
use aiplatform.Workflow.RunService.{mark_completed, complete_step, start_step}
use aiplatform.Workflow.Execution.{run_workflow}
use aiplatform.Schedule.Timing.{next_after, interval_after}
use aiplatform.Schedule.Service.{get_schedule, list_due, is_due}
use aiplatform.Schedule.Ticker.{fire_one, tick}
use aiplatform.Schedule.Advance.{
  IsCron, IsTimed, IsFired, run_of_schedule, fire_one-IsFired, time_at,
}
use aiplatform.Schedule.Progress.{tick_serves}

abbrev hourly : WorkflowSchedule
hourly = record {
  id = 50;
  workflow_id = 1;
  schedule_type = ScheduleType.interval;
  cron_expression = none;
  interval_seconds = some 3600;
  input_template = 71 ∷ [];
  user_id = none;
  enabled = true;
  deleted = false;
  next_run_at = some 1000;
  last_run_at = none;
  last_status = none;
  last_error = none;
  last_workflow_run_id = none;
}

abbrev scheduled : Db
scheduled = record empty_db {
  workflows = drafting ∷ [];
  workflow_steps = draft ∷ [];
  workflow_schedules = hourly ∷ [];
}

echo-IsCron : IsCron echo.cron_next
echo-IsCron e a t h = let q : suc a ≡ t = cc in omega arith

interval_set : hourly.interval_seconds ≢ some 0
interval_set h = cc

hourly-IsTimed : IsTimed echo hourly
unfolding next_after interval_after
hourly-IsTimed a = (a + 3600, refl, omega arith)

-- It is due at any time from 1000 on.
due_now : list_due 1000 scheduled ≡ hourly ∷ []
unfolding list_due sort_by
due_now = refl

not_due_before : list_due 999 scheduled ≡ []
unfolding list_due sort_by
not_due_before = refl

found_hourly : get_schedule 50 scheduled ≡ some hourly
unfolding get_schedule
found_hourly = refl

fire_one-IsFired_example :
    IsFired echo hourly 50
      (run_of_schedule echo hourly (calling (blank scheduled)))
      (fire_one echo hourly (blank scheduled))
fire_one-IsFired_example =
    fire_one-IsFired echo hourly hourly (blank scheduled) refl found_hourly refl
      (λ a. (a + 3600, unfold next_after interval_after in refl)) echo-IsCron interval_set

abbrev noon_seconds : ℕ
noon_seconds = time_at echo 0

abbrev hourly_fired : WorkflowSchedule
hourly_fired = record hourly {
  last_run_at = some noon_seconds;
  last_status = some WorkflowRunStatus.completed;
  last_workflow_run_id = some 101;
  next_run_at = some (noon_seconds + 3600);
}

-- A round of the ticker runs the workflow and advances the schedule.
listed : Member hourly (list_due noon_seconds scheduled)
unfolding list_due sort_by timestamp
listed = inl refl

after_tick : get_schedule 50 (tick echo (blank scheduled)).saved ≡ some hourly_fired
unfolding tick get_schedule timestamp list_due sort_by run_workflow mark_completed complete_step
    start_step
after_tick = refl

tick_serves_example : is_due noon_seconds hourly_fired ≡ false
tick_serves_example =
    tick_serves echo (blank scheduled) hourly hourly_fired (λ n id. refl) (λ n. omega arith) refl
      (hourly-IsTimed, tt) listed after_tick
