-- ===== src/Schedule/Service.antt =====
-- app/schedule/service.py and app/repositories/workflow_schedule_repository.py: the rows of
-- schedules.
use aiplatform.Shared.{
  ℕ, suc, Bool, true, false, ◌&&◌, ◌||◌, not, Option, none, some, List, [], ◌∷◌, ◌++◌, Text, ◌==◌,
  leb, is_some, first_where, update_where, select, page, sort_by,
}
use aiplatform.Errors.{Failure, Message, about, text, raised, ErrorClass}
use aiplatform.Exec.{ok, Exec, pure, raise_if, or_raise, gets, modify, ◌>>=◌, ◌>>◌}
use aiplatform.Models.{WorkflowSchedule, ScheduleType, WorkflowRunStatus}
use aiplatform.State.{Db, World, Outside, change, now_seconds}
use aiplatform.Workflow.Session.{get_workflow, missing_workflow}
use aiplatform.Schedule.Timing.{compute_next_run_at, next_if_enabled}

-- `BaseRepository.get`
unfoldable pub get_schedule : ℕ → Db → Option WorkflowSchedule
get_schedule id d = first_where (λ s. s.id == id && not s.deleted) d.workflow_schedules

abbrev pub missing_schedule : ℕ → Failure
missing_schedule id = raised ErrorClass.not_found (about "WorkflowSchedule not found" id)

unfoldable pub get_or_404 : ℕ → Exec World WorkflowSchedule
unfolding get_schedule
get_or_404 id = do found ← gets (λ w. get_schedule id w.db); or_raise found (missing_schedule id)

-- Assignments to the attributes of a schedule, and their flush.
unfoldable pub update_schedule : ℕ → (WorkflowSchedule → WorkflowSchedule) → Db → Db
update_schedule id f d = record d {
  workflow_schedules = update_where (λ s. s.id == id) f d.workflow_schedules;
}

-- `next_run_at` of a row, if there is one.
abbrev pub next_or_zero : WorkflowSchedule → ℕ
next_or_zero s = elim s.next_run_at [ none ↦ 0 | some t ↦ t ]

abbrev pub arrived : ℕ → Option ℕ → Bool
arrived as_of none = false
arrived as_of (some t) = leb t as_of

abbrev pub is_due : ℕ → WorkflowSchedule → Bool
is_due as_of s = not s.deleted && (s.enabled && arrived as_of s.next_run_at)

abbrev pub due_limit : ℕ
due_limit = 100

unfoldable pub list_due : ℕ → Db → List WorkflowSchedule
list_due as_of d =
    page due_limit (sort_by next_or_zero (select (is_due as_of) d.workflow_schedules))

-- app/schemas/workflow_schedule.py; the schema has checked that the field of the type is there.
pub record WorkflowScheduleCreate : Type 0 where
  pub schedule_type : ScheduleType
  pub cron_expression : Option Text
  pub interval_seconds : Option ℕ
  pub input_template : Text
  pub user_id : Option Text
  pub enabled : Bool

-- A field that was sent holds a value or None.
pub record WorkflowScheduleUpdate : Type 0 where
  pub cron_expression : Option (Option Text)
  pub interval_seconds : Option (Option ℕ)
  pub input_template : Option (Option Text)
  pub user_id : Option (Option Text)
  pub enabled : Option (Option Bool)

abbrev pub new_schedule : ℕ → ℕ → WorkflowScheduleCreate → WorkflowSchedule
new_schedule id workflow_id p = record {
  id = id;
  workflow_id = workflow_id;
  schedule_type = p.schedule_type;
  cron_expression = p.cron_expression;
  interval_seconds = p.interval_seconds;
  input_template = p.input_template;
  user_id = p.user_id;
  enabled = p.enabled;
  deleted = false;
  next_run_at = none;
  last_run_at = none;
  last_status = none;
  last_error = none;
  last_workflow_run_id = none;
}

unfoldable pub insert_schedule : ℕ → WorkflowScheduleCreate → Exec World WorkflowSchedule
insert_schedule workflow_id p w =
    let s = new_schedule w.db.next_id workflow_id p in
    (
      ok s,
      change
          (λ d. record d {
            next_id = suc d.next_id;
            workflow_schedules = d.workflow_schedules ++ s ∷ [];
          })
          w,
    )

-- `schedule.next_run_at = ...`
abbrev pub with_next : Option ℕ → WorkflowSchedule → WorkflowSchedule
with_next t s = record s { next_run_at = t }

abbrev valid_expression : Outside → Option Text → Bool
valid_expression o none = false
valid_expression o (some e) = o.cron_valid e

-- `payload.schedule_type == cron and not croniter.is_valid(...)`
unfoldable pub refused : Outside → WorkflowScheduleCreate → Bool
refused o p = elim p.schedule_type [
  | ScheduleType.cron ↦ not (valid_expression o p.cron_expression)
  | ScheduleType.interval ↦ false
]

unfoldable pub create : Outside → ℕ → WorkflowScheduleCreate → Exec World WorkflowSchedule
unfolding get_workflow refused insert_schedule compute_next_run_at update_schedule
create o workflow_id p = do
  found ← gets (λ w. get_workflow workflow_id w.db)
  or_raise found (missing_workflow workflow_id)
  raise_if (refused o p) (raised ErrorClass.validation_failed (text "Invalid cron_expression"))
  s ← insert_schedule workflow_id p
  next ← compute_next_run_at o s none
  modify (change (update_schedule s.id (with_next (some next))))
  pure (with_next (some next) s)

-- A field that was not sent, or sent as None, keeps its value.
abbrev pub patched {ℓ} : {A : Type ℓ} → Option (Option A) → A → A
patched none old = old
patched (some none) old = old
patched (some (some new)) old = new

abbrev pub patched_option {ℓ} : {A : Type ℓ} → Option (Option A) → Option A → Option A
patched_option none old = old
patched_option (some none) old = old
patched_option (some (some new)) old = some new

unfoldable pub updated_schedule : WorkflowScheduleUpdate → WorkflowSchedule → WorkflowSchedule
updated_schedule p s = record s {
  cron_expression = patched_option p.cron_expression s.cron_expression;
  interval_seconds = patched_option p.interval_seconds s.interval_seconds;
  input_template = patched p.input_template s.input_template;
  user_id = patched_option p.user_id s.user_id;
  enabled = patched p.enabled s.enabled;
}

-- `any(k in update_data for k in ("cron_expression", "interval_seconds", "enabled"))`
abbrev pub changes_timing : WorkflowScheduleUpdate → Bool
changes_timing p = is_some p.cron_expression || (is_some p.interval_seconds || is_some p.enabled)

retimed : Outside → Bool → WorkflowSchedule → Exec World WorkflowSchedule
unfolding next_if_enabled update_schedule
retimed o false s = pure s
retimed o true s = do
  next ← next_if_enabled o s
  modify (change (update_schedule s.id (with_next next)))
  pure (with_next next s)

unfoldable pub update : Outside → ℕ → WorkflowScheduleUpdate → Exec World WorkflowSchedule
unfolding get_or_404 update_schedule updated_schedule retimed
update o id p = do
  s ← get_or_404 id
  modify (change (update_schedule s.id (updated_schedule p)))
  retimed o (changes_timing p) (updated_schedule p s)

unfoldable pub delete : ℕ → Exec World (Unit {0})
unfolding get_or_404 update_schedule
delete id = do
  s ← get_or_404 id
  modify (change (update_schedule s.id (λ r. record r { deleted = true })))

-- What a firing writes into the row.
pub record Firing : Type 0 where
  pub time : ℕ
  pub status : WorkflowRunStatus
  pub workflow_run_id : Option ℕ
  pub error : Option Message
  pub next : Option ℕ

abbrev pub fired : Firing → WorkflowSchedule → WorkflowSchedule
fired f s = record s {
  last_run_at = some f.time;
  last_status = some f.status;
  last_error = f.error;
  last_workflow_run_id = f.workflow_run_id;
  next_run_at = f.next;
}

unfoldable pub record_fired :
    Outside
    → WorkflowSchedule
    → WorkflowRunStatus
    → Option ℕ
    → Option Message
    → Exec World (Unit {0})
unfolding next_if_enabled update_schedule
record_fired o s status workflow_run_id error = do
  time ← now_seconds o
  next ← next_if_enabled o s
  modify (
      change (
        update_schedule s.id (
          fired (record {
            time = time;
            status = status;
            workflow_run_id = workflow_run_id;
            error = error;
            next = next;
          }))))
