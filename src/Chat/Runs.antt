-- ===== src/Chat/Runs.antt =====
-- app/services/run_service.py: the rows of a chat run. No method raises.
use aiplatform.Shared.{ℕ, suc, Option, none, some, [], ◌∷◌, ◌++◌, Text, ◌==◌, length, update_where}
use aiplatform.Errors.{Message, text}
use aiplatform.Models.{
  AgentRun, RunStatus, EventType, RunPayload, of_input, of_output_length, of_error, of_cancel,
}
use aiplatform.Clock.{timestamp}
use aiplatform.State.{World, Outside, change}

unfoldable pub emit_event : ℕ → EventType → RunPayload → World → World
emit_event run_id kind payload = change λ d. record d {
  agent_events =
      d.agent_events ++ (record { run_id = run_id; event_type = kind; payload = payload }) ∷ [];
}

abbrev pub new_run : ℕ → ℕ → ℕ → Text → AgentRun
new_run id session_id agent_id input = record {
  id = id;
  session_id = session_id;
  agent_id = agent_id;
  status = RunStatus.pending;
  input = input;
  output = none;
  error_message = none;
  started_at = none;
  finished_at = none;
}

unfoldable pub create_run : ℕ → ℕ → Text → World → AgentRun × World
unfolding emit_event
create_run session_id agent_id input w =
    let run = new_run w.db.next_id session_id agent_id input in
    let w' =
      change (λ d. record d { next_id = suc d.next_id; agent_runs = d.agent_runs ++ run ∷ [] }) w in
    (run, emit_event run.id EventType.agent_started (of_input input) w')

-- Assignments to the attributes of a run, and their flush.
abbrev pub update_run : ℕ → (AgentRun → AgentRun) → World → World
update_run run_id f =
    change λ d. record d { agent_runs = update_where (λ r. r.id == run_id) f d.agent_runs }

-- The same, with a reading of the clock.
abbrev pub update_timed : Outside → ℕ → (ℕ → AgentRun → AgentRun) → World → World
update_timed o run_id f w =
    let w' = update_run run_id (f (timestamp (o.now w.readings))) w in
    record w' { readings = suc w'.readings }

abbrev pub running_run : ℕ → AgentRun → AgentRun
running_run t r = record r { status = RunStatus.running; started_at = some t }

unfoldable pub mark_running : Outside → ℕ → World → World
mark_running o run_id w = update_timed o run_id running_run w

abbrev pub completed_run : Text → ℕ → AgentRun → AgentRun
completed_run output t r = record r {
  status = RunStatus.completed;
  output = some output;
  finished_at = some t;
}

unfoldable pub mark_completed : Outside → ℕ → Text → World → World
unfolding emit_event
mark_completed o run_id output w =
    emit_event run_id EventType.agent_completed (of_output_length (length output))
      (update_timed o run_id (completed_run output) w)

abbrev pub failed_run : Message → ℕ → AgentRun → AgentRun
failed_run error t r = record r {
  status = RunStatus.failed;
  error_message = some error;
  finished_at = some t;
}

unfoldable pub mark_failed : Outside → ℕ → Message → World → World
unfolding emit_event
mark_failed o run_id error w =
    emit_event run_id EventType.error (of_error error) (update_timed o run_id (failed_run error) w)

-- `output or None`
abbrev pub filled_text : Text → Option Text
filled_text [] = none
filled_text (c ∷ t) = some (c ∷ t)

abbrev pub cancel_reason : Message
cancel_reason = text "Cancelled by user"

abbrev pub cancelled_run : Text → ℕ → AgentRun → AgentRun
cancelled_run output t r = record r {
  status = RunStatus.cancelled;
  output = filled_text output;
  error_message = some cancel_reason;
  finished_at = some t;
}

unfoldable pub mark_cancelled : Outside → ℕ → Text → World → World
unfolding emit_event
mark_cancelled o run_id output w =
    emit_event run_id EventType.run_cancelled (of_cancel cancel_reason (length output))
      (update_timed o run_id (cancelled_run output) w)
