-- ===== src/Schedule/Advance.antt =====
-- What a firing does to its schedule.
use aiplatform.Shared.{
  ℕ, zero, suc, ◌+◌, ◌<◌, ◌⊎◌, Option-cases, ◌≡◌, ◌≢◌, refl, ap, ◌∙◌, Bool, true, Option, none,
  some, Text, arith, inl, inr, ◌==◌, ◌&&◌, not, first_where_after_update, ==-refl, List,
}
use aiplatform.Clock.{timestamp}
use aiplatform.Errors.{Message}
use aiplatform.Exec.{Result, ok, err}
use aiplatform.Models.{WorkflowSchedule, WorkflowRunStatus, ScheduleType}
use aiplatform.State.{Db, World, Outside, calling, in_session}
use aiplatform.Workflow.Execution.{WorkflowRunResponse, run_workflow}
use aiplatform.Workflow.Transaction.{run_workflow_keeps_aside}
use aiplatform.Schedule.Timing.{
  next_after, cron_after, interval_after, next_if_enabled, compute_next_run_at,
}
use aiplatform.Schedule.Service.{
  get_schedule, get_or_404, update_schedule, record_fired, Firing, fired,
}
use aiplatform.Schedule.Ticker.{request_of, run_and_record, run_if, fire_in_session, fire_one}

-- croniter's documentation of `get_next`: the next time that fits, after the anchor.
abbrev pub IsCron : (Text → ℕ → Option ℕ) → Type 0
IsCron cron_next = (e : Text) (a t : ℕ) → cron_next e a ≡ some t → a < t

type_cases : (k : ScheduleType) → (k ≡ ScheduleType.cron) ⊎ (k ≡ ScheduleType.interval)
type_cases ScheduleType.cron = inl refl
type_cases ScheduleType.interval = inr refl

cron_after_later :
    (o : Outside) (e : Option Text) (a t : ℕ) → IsCron o.cron_next → cron_after o e a ≡ ok t → a < t
unfolding cron_after
cron_after_later o none a t c h = cc
cron_after_later o (some e) a t c h = elim (Option-cases (o.cron_next e a)) [
  | inl k ↦ cc (rw (k, cron_after) at h)
  | inr (n, k) ↦ let q : n ≡ t = cc (rw (k, cron_after) at h) in c e a t (k ∙ ap some q)
]

interval_after_later : (i : Option ℕ) (a t : ℕ) → i ≢ some 0 → interval_after i a ≡ ok t → a < t
unfolding interval_after
interval_after_later none a t n h = cc
interval_after_later (some zero) a t n h = elim (n refl) [ ]
interval_after_later (some (suc i)) a t n h = let q : a + suc i ≡ t = cc in omega arith

-- The next time that is computed for a schedule lies strictly after its anchor, for a cron
-- expression and for an interval. The interval is not 0, and croniter's times lie after its anchor.
pub next_after_later :
    (o : Outside) (s : WorkflowSchedule) (a t : ℕ)
    → IsCron o.cron_next
    → s.interval_seconds ≢ some 0
    → next_after o s a ≡ ok t
    → a < t
unfolding next_after
next_after_later o s a t c n h = elim (type_cases s.schedule_type) [
  | inl e ↦ cron_after_later o s.cron_expression a t c (rw e at h)
  | inr e ↦ interval_after_later s.interval_seconds a t n (rw e at h)
]

-- A schedule whose next time can be computed at every time, and lies after it.
abbrev pub IsTimed : Outside → WorkflowSchedule → Type 0
IsTimed o s = (a : ℕ) → (t : ℕ) × (next_after o s a ≡ ok t) × (a < t)

-- What is recorded of a workflow call.
abbrev pub status_of : Result WorkflowRunResponse → WorkflowRunStatus
status_of (ok r) = r.status
status_of (err e) = WorkflowRunStatus.failed

abbrev pub run_of : Result WorkflowRunResponse → Option ℕ
run_of (ok r) = some r.workflow_run_id
run_of (err e) = none

abbrev pub error_of : Result WorkflowRunResponse → Option Message
error_of (ok r) = none
error_of (err e) = some e.message

abbrev pub firing : Result WorkflowRunResponse → ℕ → ℕ → Firing
firing r time next = record {
  time = time;
  status = status_of r;
  workflow_run_id = run_of r;
  error = error_of r;
  next = some next;
}

abbrev pub time_at : Outside → ℕ → ℕ
time_at o n = timestamp (o.now n)

-- The state after a record.
abbrev pub recorded : Outside → ℕ → Firing → World → World
recorded o id f v = record v {
  readings = suc (suc v.readings);
  db = update_schedule id (fired f) v.db;
}

record_fired-recorded :
    (o : Outside) (s : WorkflowSchedule) (status : WorkflowRunStatus) (run : Option ℕ)
    (error : Option Message) (v : World) (t : ℕ)
    → s.enabled ≡ true
    → next_after o s (time_at o (suc v.readings)) ≡ ok t
    → record_fired o s status run error v ≡ (
      ok tt,
      recorded o s.id
          (record {
            time = time_at o v.readings;
            status = status;
            workflow_run_id = run;
            error = error;
            next = some t;
          })
          v,
    )
unfolding record_fired next_if_enabled compute_next_run_at
record_fired-recorded o s status run error v t on h = rw (on, h) refl

module _ (o : Outside) (s : WorkflowSchedule) where
  abbrev pub run_of_schedule : World → Result WorkflowRunResponse × World
  run_of_schedule w = run_workflow o s.workflow_id (request_of s) w

  run_and_record-recorded :
      (w v : World) (r : Result WorkflowRunResponse) (t : ℕ)
      → s.enabled ≡ true
      → run_of_schedule w ≡ (r, v)
      → next_after o s (time_at o (suc v.readings)) ≡ ok t
      → run_and_record o s w ≡ (ok tt, recorded o s.id (firing r (time_at o v.readings) t) v)
  unfolding run_and_record
  run_and_record-recorded w v (ok r) t on e h =
      rw e (rw (record_fired-recorded o s r.status (some r.workflow_run_id) none v t on h) refl)
  run_and_record-recorded w v (err x) t on e h =
      rw e (record_fired-recorded o s WorkflowRunStatus.failed none (some x.message) v t on h)

  -- What a firing whose lock was won leaves of a schedule that can be fired.
  pub fire_one-recorded :
      (x : WorkflowSchedule) (w v : World) (r : Result WorkflowRunResponse) (t : ℕ)
      → o.acquire_lock w.calls x.id ≡ true
      → get_schedule x.id w.db ≡ some s
      → s.enabled ≡ true
      → run_of_schedule (calling w) ≡ (r, v)
      → next_after o s (time_at o (suc v.readings)) ≡ ok t
      → fire_one o x w ≡ (
        ok tt,
        let v' = recorded o s.id (firing r (time_at o v.readings) t) v in
            record v' { saved = v'.db },
      )
  unfolding fire_one fire_in_session get_or_404
  fire_one-recorded x w v r t lock found on e h =
      let inside : fire_in_session o x.id (calling w) ≡ run_if s.enabled o s (calling w) =
        rw found refl in
      let all =
        inside
        ∙ ap (λ (b : Bool). run_if b o s (calling w)) on
        ∙ unfold run_if in run_and_record-recorded (calling w) v r t on e h in
      rw (fire_one, lock) (ap (λ (p : Result (Unit {0}) × World). in_session (λ _. p) w) all)

  -- The row that is found after the update of a firing.
  get_fired :
      (id : ℕ) (f : Firing) (d e : Db)
      → get_schedule id d ≡ some s
      → e.workflow_schedules ≡ d.workflow_schedules
      → get_schedule id (update_schedule s.id (fired f) e) ≡ some (fired f s)
  unfolding get_schedule update_schedule
  get_fired id f d e found same =
      rw
        (
          same,
          first_where_after_update (λ r. r.id == id && not r.deleted) (λ r. r.id == s.id) (fired f)
              d.workflow_schedules (λ r. refl),
          found,
          ==-refl s.id,
        )
        refl

  -- The schedule as it stands after a firing, committed: when it ran, how the workflow call ended,
  -- and the next time, which lies ahead; all else of the row is as it was.
  abbrev pub IsFired : ℕ → Result WorkflowRunResponse × World → Result (Unit {0}) × World → Type 0
  IsFired id (r, v) after =
      (t : ℕ) × (time_at o (suc v.readings) < t)
      × (get_schedule id after.1.saved
          ≡ some (record s {
            last_run_at = some (time_at o v.readings);
            last_status = some (status_of r);
            last_error = error_of r;
            last_workflow_run_id = run_of r;
            next_run_at = some t;
          }))
      × (after.1.saved.workflow_runs ≡ v.db.workflow_runs)
      × (after.0 ≡ ok tt)

  -- A firing whose lock was won, of a schedule that is enabled and whose next time can be computed
  -- at every time, commits the row of the schedule with what the workflow call gave: the status and
  -- identifier of its run, or FAILED and the message of what the call raised. In both cases the
  -- next time lies after the clock's reading, and the rows of runs that the call wrote, a FAILED
  -- one too, are committed. croniter's times lie after their anchor, and an interval is not 0.
  pub fire_one-IsFired :
      (x : WorkflowSchedule) (w : World)
      → o.acquire_lock w.calls x.id ≡ true
      → get_schedule x.id w.db ≡ some s
      → s.enabled ≡ true
      → ((a : ℕ) → (t : ℕ) × (next_after o s a ≡ ok t))
      → IsCron o.cron_next
      → s.interval_seconds ≢ some 0
      → IsFired x.id (run_of_schedule (calling w)) (fire_one o x w)
  fire_one-IsFired x w lock found on timed cron positive =
      let (r, v) = run_of_schedule (calling w) in
      let (t, e) = timed (time_at o (suc v.readings)) in
      let l = next_after_later o s (time_at o (suc v.readings)) t cron positive e in
      let q = fire_one-recorded x w v r t lock found on refl e in
      (
        t,
        l,
        ap (λ (p : Result (Unit {0}) × World). get_schedule x.id p.1.saved) q
            ∙ get_fired x.id (firing r (time_at o v.readings) t) w.db v.db found (
                ap (λ (a : Db × List WorkflowSchedule). a.1)
                  (run_workflow_keeps_aside o s.workflow_id (request_of s) (calling w))),
        ap (λ (p : Result (Unit {0}) × World). p.1.saved.workflow_runs) q
            ∙ unfold update_schedule in refl,
        ap (λ (p : Result (Unit {0}) × World). p.0) q,
      )
