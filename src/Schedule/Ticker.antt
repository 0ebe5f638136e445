-- ===== src/Schedule/Ticker.antt =====
-- app/schedule/ticker.py: the polling loop. `session_scope` is `in_session`; what an iteration of
-- the loop catches is logged and otherwise forgotten.
use aiplatform.Shared.{ℕ, zero, suc, Bool, true, false, none, some, List, [], ◌∷◌}
use aiplatform.Exec.{ok, Exec, Result, pure, gets, try_with, ◌>>=◌}
use aiplatform.Models.{WorkflowSchedule, WorkflowRunStatus}
use aiplatform.State.{World, Outside, calling, in_session, now_seconds}
use aiplatform.Workflow.Session.{WorkflowRunRequest}
use aiplatform.Workflow.Execution.{run_workflow}
use aiplatform.Schedule.Service.{get_or_404, record_fired, list_due}

abbrev pub request_of : WorkflowSchedule → WorkflowRunRequest
request_of s = record { input = s.input_template; session_id = none; user_id = s.user_id }

-- The `try` block of `_fire_one` and its handler.
unfoldable pub run_and_record : Outside → WorkflowSchedule → Exec World (Unit {0})
unfolding run_workflow record_fired
run_and_record o fresh =
    try_with
      (do
        result ← run_workflow o fresh.workflow_id (request_of fresh)
        record_fired o fresh result.status (some result.workflow_run_id) none)
      pure (λ e. record_fired o fresh WorkflowRunStatus.failed none (some e.message))

-- `if not fresh.enabled: return`
unfoldable pub run_if : Bool → Outside → WorkflowSchedule → Exec World (Unit {0})
unfolding run_and_record
run_if true o fresh = run_and_record o fresh
run_if false o fresh = pure tt

-- What happens inside of the session of `_fire_one`.
unfoldable pub fire_in_session : Outside → ℕ → Exec World (Unit {0})
unfolding get_or_404 run_if
fire_in_session o id = do fresh ← get_or_404 id; run_if fresh.enabled o fresh

unfoldable pub fire_one : Outside → WorkflowSchedule → Exec World (Unit {0})
unfolding fire_in_session
fire_one o s w = elim (o.acquire_lock w.calls s.id) [
  | true ↦ in_session (fire_in_session o s.id) (calling w)
  | false ↦ (ok tt, calling w)
]

-- The query of a round, in a session of its own.
unfoldable pub poll : Outside → Exec World (List WorkflowSchedule)
unfolding list_due
poll o = in_session (do as_of ← now_seconds o; gets (λ w. list_due as_of w.db))

-- `for schedule in due`, one failure not stopping the others.
unfoldable pub fire_all : Outside → List WorkflowSchedule → World → World
unfolding fire_one
fire_all o [] w = w
fire_all o (s ∷ ss) w = fire_all o ss (fire_one o s w).1

unfoldable pub fire_found : Outside → Result (List WorkflowSchedule) → World → World
unfolding fire_all
fire_found o (Result.ok due) w = fire_all o due w
fire_found o (Result.err e) w = w

-- One round of the loop.
unfoldable pub tick : Outside → World → World
unfolding poll fire_found
tick o w = let (r, w') = poll o w in fire_found o r w'

-- `run_ticker_loop`, of which `stop_ticker` ends the rounds.
unfoldable pub run_ticker_loop : Outside → ℕ → World → World
unfolding tick
run_ticker_loop o zero w = w
run_ticker_loop o (suc rounds) w = run_ticker_loop o rounds (tick o w)
