-- ===== src/Chat/Completed.antt =====
-- How the turn of `handle_chat` ends: its response, or its exception, and the row of its run.
use aiplatform.Shared.{
  ℕ, ◌≡◌, refl, ap, ◌∙◌, Option, none, some, List, [], ◌∷◌, Text, true, first_where, ◌==◌,
}
use mathlib.Core.Path.{subst}
use aiplatform.Errors.{Message}
use aiplatform.Exec.{Result, ok, err}
use aiplatform.Clock.{timestamp}
use aiplatform.Settings.{Settings}
use aiplatform.Models.{AgentRun, RunStatus}
use aiplatform.State.{calling, World, Outside, EventStream, StreamEvent}
use aiplatform.Quota.Service.{is_tracked, record_usage}
use aiplatform.Quota.Keeping.{record_usage_keeps_runs}
use aiplatform.Quota.Accounting.{record_usage-Stored, Stored, event_of}
use aiplatform.Workflow.Session.{add_message}
use aiplatform.Chat.Runs.{
  mark_running, mark_failed, mark_completed, emit_event, running_run, completed_run, failed_run,
}
use aiplatform.Chat.Merge.{merge_content_parts}
use aiplatform.Chat.Opening.{
  ChatRequest, Served, Opened, Gathered, nothing, gather, keep_event, complete_run, account,
  model_of, compute_cost_usd,
}
use aiplatform.Chat.Turn.{ChatResponse, drain, finish_turn, settle, streamed_turn}
use aiplatform.Chat.Ended.{find_run, updated_run}

-- The run has a row that ended as the call did.
abbrev pub TurnEnds : ℕ → Result ChatResponse × World → Type 0
TurnEnds id (ok a, v) =
    (a.run_id ≡ id)
    × ((r : AgentRun) × (find_run id v.db ≡ some r)
        × (r.status ≡ RunStatus.completed)
        × (r.output ≡ some a.message))
TurnEnds id (err e, v) =
    (r : AgentRun) × (find_run id v.db ≡ some r)
    × (r.status ≡ RunStatus.failed)
    × (r.error_message ≡ some e.message)

drain_runs :
    (id : ℕ) (es : List StreamEvent) (g : Gathered) (w : World)
    → (drain id es g w).1.db.agent_runs ≡ w.db.agent_runs
unfolding drain keep_event emit_event
drain_runs id [] g w = refl
drain_runs id (e ∷ es) g w = drain_runs id es (gather e.payload g) (keep_event id e w)

abbrev found_in : ℕ → List AgentRun → Option AgentRun
found_in id = first_where (λ r. r.id == id)

usage_lost :
    (o : Outside) (settings : Settings) (run_id : Option ℕ) (user : Text) (groups : List Text)
    (model : Option ℕ) (i n : ℕ) (c : Option ℕ) (w : World) (m : Message)
    → is_tracked settings (some user) ≡ true
    → o.usage_insert_error w.calls ≡ some m
    → (record_usage o settings run_id (some user) groups model i n c w).1.db ≡ w.saved
usage_lost o settings run_id user groups model i n c w m tracked failed =
    let stored = (record_usage-Stored o settings run_id user groups model i n c w tracked).1 in
    (subst
      (λ (x : Option Message).
        Stored x (event_of run_id user groups model i n c) w
          (record_usage o settings run_id (some user) groups model i n c w).1)
      failed stored).0

module _ (o : Outside) (settings : Settings) (groups : List Text) (req : ChatRequest) (s : Served)
    (t : Opened) where
  finish_turn-TurnEnds :
      (output : Text) (i n : ℕ) (w : World) (r : AgentRun)
      → o.usage_insert_error w.calls ≡ none
      → find_run t.run_id w.db ≡ some r
      → TurnEnds t.run_id (finish_turn o settings groups req s t output i n w)
  unfolding finish_turn account complete_run mark_completed emit_event add_message
  finish_turn-TurnEnds output i n w r fine h =
      let f = completed_run output (timestamp (o.now w.readings)) in
      let v = complete_run o t output w in
      (
        refl,
        (
          f r,
          ap (found_in t.run_id) (
                record_usage_keeps_runs o settings (some t.run_id) req.user_id groups (model_of s) i
                  n (compute_cost_usd (model_of s) i n v.db) v fine)
              ∙ updated_run t.run_id f w r refl h,
          refl,
          refl,
        ),
      )

  settle-TurnEnds :
      (failure : Option Message) (g : Gathered) (w : World) (r : AgentRun)
      → ((n : ℕ) → o.usage_insert_error n ≡ none)
      → find_run t.run_id w.db ≡ some r
      → TurnEnds t.run_id (settle o settings groups req s t failure (g, w))
  unfolding settle mark_failed emit_event
  settle-TurnEnds (some m) g w r fine h =
      let f = failed_run m (timestamp (o.now w.readings)) in
      (f r, updated_run t.run_id f w r refl h, refl, refl)
  settle-TurnEnds none g w r fine h =
      finish_turn-TurnEnds (merge_content_parts g.parts) g.input_tokens g.output_tokens w r
        (fine w.calls) h

  -- A turn of `handle_chat` that drives a stream of events, an agent's or a root team's, ends in one
  -- of two ways: it responds with the run that it opened, whose row is COMPLETED and holds the
  -- response's text, or it raises, and the row is FAILED and holds the error's message. The
  -- opened run must have its row, and no insert of a usage event may fail.
  pub streamed_turn-TurnEnds :
      (stream : World → EventStream) (w : World) (r : AgentRun)
      → ((n : ℕ) → o.usage_insert_error n ≡ none)
      → find_run t.run_id w.db ≡ some r
      → TurnEnds t.run_id (streamed_turn o settings groups req stream s t w)
  unfolding streamed_turn mark_running
  streamed_turn-TurnEnds stream w r fine h =
      let w₁ = mark_running o t.run_id w in
      let events = stream w₁ in
      let (g, v) = drain t.run_id events.events nothing (calling w₁) in
      let f = running_run (timestamp (o.now w.readings)) in
      settle-TurnEnds events.failure g v (f r) fine (
        ap (found_in t.run_id) (drain_runs t.run_id events.events nothing (calling w₁))
        ∙ updated_run t.run_id f w r refl h)
