-- ===== src/Chat/Durable.antt =====
-- A streamed turn and the database: what a client has seen is committed.
use aiplatform.Shared.{
  ◌≡◌, refl, inl, inr, Option, none, some, List, [], ◌∷◌, Text, Bool, true, false, ◌⊎◌,
}
use aiplatform.Errors.{Message}
use aiplatform.Settings.{Settings}
use aiplatform.State.{
  committed, sent_after, calling, after_tools, World, Outside, StreamEvent, EventStream, chat_event,
  chat_started,
}
use aiplatform.State.Durable.{IsDurable, sent-AllDurable, durable_as}
use aiplatform.Quota.Keeping.{record_usage-Accounted}
use aiplatform.Workflow.Session.{add_message}
use aiplatform.Chat.Runs.{mark_running, mark_failed, mark_cancelled, mark_completed, emit_event}
use aiplatform.Chat.Merge.{merge_content_parts}
use aiplatform.Chat.Opening.{
  ChatRequest, Served, Opened, Gathered, nothing, gather, keep_event, complete_run, account,
  model_of, compute_cost_usd,
}
use aiplatform.Chat.Stream.{
  LoopEnd, broken, cancelled, finished, forward, add_partial, handle_cancellation, report_error,
  report_completed, settle_stream, stream_turn,
}

-- How a poll may go.
pub Poll-cases : (p : Option Bool) → (p ≡ none) ⊎ (p ≡ some true) ⊎ (p ≡ some false)
Poll-cases none = inl refl
Poll-cases (some true) = inr (inl refl)
Poll-cases (some false) = inr (inr refl)

forward-IsDurable :
    (o : Outside) (t : Opened) (es : List StreamEvent) (g : Gathered) (w : World)
    → IsDurable w
    → IsDurable (forward o t es g w).2
unfolding forward keep_event emit_event
forward-IsDurable o t [] g w h = h
forward-IsDurable o t (e ∷ es) g w h = elim (Poll-cases (o.cancel_requested w.calls t.run_id)) [
  | inl c ↦ rw (forward, c) h
  | inr (inl c) ↦ rw (forward, c) h
  | inr (inr c) ↦
      let w₁ = committed (keep_event t.run_id e (calling (after_tools o 0 w))) in
      let i = chat_event t.run_id t.session_id e.name e.payload in
      rw (forward, c)
        (forward-IsDurable o t es (gather e.payload g) (sent_after i w₁)
          (sent-AllDurable i w₁.sent w₁.db w₁.db refl h))
]

add_partial_sent : (t : Opened) (x : Text) (w : World) → (add_partial t x w).sent ≡ w.sent
unfolding add_message
add_partial_sent t [] w = refl
add_partial_sent t (c ∷ cs) w = refl

handle_cancellation-IsDurable :
    (o : Outside) (t : Opened) (g : Gathered) (w : World)
    → IsDurable w
    → IsDurable (handle_cancellation o t g w)
unfolding handle_cancellation mark_cancelled emit_event
handle_cancellation-IsDurable o t g w h =
    sent-AllDurable _ _ _ _ refl
      (durable_as _ w.sent (add_partial_sent t (merge_content_parts g.parts) w) h)

report_error-IsDurable :
    (o : Outside) (t : Opened) (m : Message) (w : World)
    → IsDurable w
    → IsDurable (report_error o t m w)
unfolding report_error mark_failed emit_event
report_error-IsDurable o t m w h = sent-AllDurable _ _ _ _ refl h

module _ (o : Outside) (settings : Settings) (groups : List Text) (req : ChatRequest) where
  report_completed-IsDurable :
      (s : Served) (t : Opened) (g : Gathered) (w : World)
      → IsDurable w
      → IsDurable (report_completed o settings groups req s t g w)
  unfolding report_completed account complete_run mark_completed emit_event add_message
  report_completed-IsDurable s t g w h =
      let output = merge_content_parts g.parts in
      let w₁ = committed (complete_run o t output w) in
      let (synced, _, kept) =
        record_usage-Accounted o settings (some t.run_id) req.user_id groups (model_of s)
          g.input_tokens g.output_tokens
          (compute_cost_usd (model_of s) g.input_tokens g.output_tokens w₁.db) w₁ refl in
      sent-AllDurable _ _ _ _ synced (durable_as _ w.sent kept h)

  settle_stream-IsDurable :
      (s : Served) (t : Opened) (failure : Option Message) (e : LoopEnd) (g : Gathered) (w : World)
      → IsDurable w
      → IsDurable (settle_stream o settings groups req s t failure (e, g, w)).1
  unfolding settle_stream
  settle_stream-IsDurable s t none broken g w h = h
  settle_stream-IsDurable s t (some m) broken g w h = h
  settle_stream-IsDurable s t none cancelled g w h = handle_cancellation-IsDurable o t g w h
  settle_stream-IsDurable s t (some m) cancelled g w h = handle_cancellation-IsDurable o t g w h
  settle_stream-IsDurable s t (some m) finished g w h = report_error-IsDurable o t m w h
  settle_stream-IsDurable s t none finished g w h = report_completed-IsDurable s t g w h

  pub stream_turn-IsDurable :
      (stream : World → EventStream) (s : Served) (t : Opened) (w : World)
      → IsDurable w
      → IsDurable (stream_turn o settings groups req stream s t w).1
  unfolding stream_turn mark_running
  stream_turn-IsDurable stream s t w h =
      let w₁ =
        sent_after (chat_started t.run_id t.session_id)
          (committed (mark_running o t.run_id (committed w))) in
      let events = stream w₁ in
      let (e, g, v) = forward o t events.events nothing (calling w₁) in
      settle_stream-IsDurable s t events.failure e g v
        (forward-IsDurable o t events.events nothing (calling w₁) (sent-AllDurable _ _ _ _ refl h))
