-- ===== src/Schedule/Timing.antt =====
-- app/models/workflow_schedule.py, app/schemas/workflow_schedule.py, and of app/schedule/service.py
-- how the next time of a schedule is computed. The croniter package is a parameter.
use aiplatform.Shared.{ℕ, ◌+◌, Bool, Option, none, some, Text}
use aiplatform.Errors.{text, raised, ErrorClass}
use aiplatform.Exec.{Result, ok, err, Exec, lift, pure, ◌>>=◌}
use aiplatform.Models.{WorkflowSchedule, ScheduleType}
use aiplatform.State.{World, Outside, now_seconds}

-- An interval counts from the anchor. Without one, `timedelta(seconds=None)` is a TypeError.
unfoldable pub interval_after : Option ℕ → ℕ → Result ℕ
interval_after none anchor = err (raised ErrorClass.other (text "TypeError: seconds is None"))
interval_after (some n) anchor = ok (anchor + n)

-- `croniter(expression, anchor).get_next(datetime)`
unfoldable pub cron_after : Outside → Option Text → ℕ → Result ℕ
cron_after o none anchor = err (raised ErrorClass.other (text "AttributeError: no cron_expression"))
cron_after o (some e) anchor = elim (o.cron_next e anchor) [
  | none ↦ err (raised ErrorClass.other (text "CroniterError"))
  | some t ↦ ok t
]

unfoldable pub next_after : Outside → WorkflowSchedule → ℕ → Result ℕ
unfolding interval_after cron_after
next_after o s anchor = elim s.schedule_type [
  | ScheduleType.interval ↦ interval_after s.interval_seconds anchor
  | ScheduleType.cron ↦ cron_after o s.cron_expression anchor
]

-- `after or datetime.now(timezone.utc)`
abbrev anchor_at : Outside → Option ℕ → Exec World ℕ
anchor_at o none = now_seconds o
anchor_at o (some t) = pure t

unfoldable pub compute_next_run_at : Outside → WorkflowSchedule → Option ℕ → Exec World ℕ
unfolding next_after
compute_next_run_at o s after = do anchor ← anchor_at o after; lift (next_after o s anchor)

-- `compute_next_run_at(schedule) if schedule.enabled else None`
unfoldable pub next_if_enabled : Outside → WorkflowSchedule → Exec World (Option ℕ)
unfolding compute_next_run_at
next_if_enabled o s w = elim s.enabled [
  | Bool.true ↦ (do next ← compute_next_run_at o s none; pure (some next)) w
  | Bool.false ↦ (ok none, w)
]
