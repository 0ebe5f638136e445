-- ===== src/Chat/Ended.antt =====
-- How a streamed turn ends: the row of its run, and the last thing that the client sees.
use aiplatform.Shared.{
  ℕ, ◌∙◌, ◌≡◌, refl, ap, inl, inr, Option, none, some, List, [], ◌∷◌, ◌++◌, Text, first_where, ◌==◌,
  first_where_updated,
}
use aiplatform.Errors.{Message}
use aiplatform.Clock.{timestamp}
use aiplatform.Exec.{ok}
use aiplatform.Settings.{Settings}
use aiplatform.Models.{AgentRun, RunStatus}
use aiplatform.State.{
  committed, sent_after, calling, after_tools, Db, World, Outside, StreamEvent, StreamItem,
  EventStream, Sent, chat_started, chat_event, chat_completed, chat_error, chat_cancelled,
}
use aiplatform.Quota.Keeping.{record_usage-Accounted}
use aiplatform.Workflow.Session.{add_message}
use aiplatform.Chat.Runs.{
  mark_running, mark_failed, mark_cancelled, mark_completed, emit_event, update_run, running_run,
  completed_run, failed_run, cancelled_run, filled_text,
}
use aiplatform.Chat.Merge.{merge_content_parts}
use aiplatform.Chat.Opening.{
  ChatRequest, Served, Opened, Gathered, nothing, gather, keep_event, complete_run, account,
  model_of, compute_cost_usd,
}
use aiplatform.Chat.Durable.{Poll-cases}
use aiplatform.Chat.Stream.{
  LoopEnd, broken, cancelled, finished, forward, add_partial, handle_cancellation, report_error,
  report_completed, settle_stream, stream_turn,
}

abbrev pub find_run : ℕ → Db → Option AgentRun
find_run id d = first_where (λ r. r.id == id) d.agent_runs

abbrev pub last_item : List Sent → Option StreamItem
last_item [] = none
last_item (x ∷ []) = some x.item
last_item (x ∷ y ∷ xs) = last_item (y ∷ xs)

last_item-append : (xs : List Sent) (x : Sent) → last_item (xs ++ x ∷ []) ≡ some x.item
last_item-append [] x = refl
last_item-append (y ∷ []) x = refl
last_item-append (y ∷ z ∷ xs) x = last_item-append (z ∷ xs) x

-- The row of a run ended as the item that closes the stream says.
abbrev pub Agrees : StreamItem → Db → Type 0
Agrees (chat_completed run_id session_id x) d =
    (r : AgentRun) × (find_run run_id d ≡ some r)
    × (r.status ≡ RunStatus.completed)
    × (r.output ≡ some x)
Agrees (chat_error run_id session_id m) d =
    (r : AgentRun) × (find_run run_id d ≡ some r)
    × (r.status ≡ RunStatus.failed)
    × (r.error_message ≡ some m)
Agrees (chat_cancelled run_id session_id x) d =
    (r : AgentRun) × (find_run run_id d ≡ some r)
    × (r.status ≡ RunStatus.cancelled)
    × (r.output ≡ filled_text x)
Agrees _ d = ⊥

-- The last item sent closes the stream, and the row agrees with it.
abbrev pub IsReported : World → Type 0
IsReported w = (i : StreamItem) × (last_item w.sent ≡ some i) × Agrees i w.db

-- There is a row with this identifier.
abbrev pub HasRun : ℕ → World → Type 0
HasRun id w = (r : AgentRun) × (find_run id w.db ≡ some r)

pub updated_run :
    (id : ℕ) (f : AgentRun → AgentRun) (w : World) (r : AgentRun)
    → (f r).id ≡ r.id
    → find_run id w.db ≡ some r
    → find_run id (update_run id f w).db ≡ some (f r)
updated_run id f w r k h =
    first_where_updated (λ x. x.id == id) f w.db.agent_runs r (ap (λ (n : ℕ). n == id) k) h

add_partial_runs :
    (t : Opened) (x : Text) (w : World) → (add_partial t x w).db.agent_runs ≡ w.db.agent_runs
unfolding add_message
add_partial_runs t [] w = refl
add_partial_runs t (c ∷ cs) w = refl

forward_runs :
    (o : Outside) (t : Opened) (es : List StreamEvent) (g : Gathered) (w : World)
    → (forward o t es g w).2.db.agent_runs ≡ w.db.agent_runs
unfolding forward keep_event emit_event
forward_runs o t [] g w = refl
forward_runs o t (e ∷ es) g w = elim (Poll-cases (o.cancel_requested w.calls t.run_id)) [
  | inl c ↦ rw (forward, c) refl
  | inr (inl c) ↦ rw (forward, c) refl
  | inr (inr c) ↦
      let w₁ = committed (keep_event t.run_id e (calling (after_tools o 0 w))) in
      rw (forward, c)
        (forward_runs o t es (gather e.payload g)
          (sent_after (chat_event t.run_id t.session_id e.name e.payload) w₁))
]

cancellation-IsReported :
    (o : Outside) (t : Opened) (g : Gathered) (w : World) (r : AgentRun)
    → find_run t.run_id w.db ≡ some r
    → IsReported (handle_cancellation o t g w)
unfolding handle_cancellation mark_cancelled emit_event
cancellation-IsReported o t g w r h =
    let partial = merge_content_parts g.parts in
    let v = add_partial t partial w in
    (
      chat_cancelled t.run_id t.session_id partial,
      last_item-append v.sent _,
      (
        cancelled_run partial (timestamp (o.now v.readings)) r,
        updated_run t.run_id (cancelled_run partial (timestamp (o.now v.readings))) v r refl (
            ap (λ (rs : List AgentRun). first_where (λ x. x.id == t.run_id) rs)
              (add_partial_runs t partial w)
            ∙ h),
        refl,
        refl,
      ),
    )

error-IsReported :
    (o : Outside) (t : Opened) (m : Message) (w : World) (r : AgentRun)
    → find_run t.run_id w.db ≡ some r
    → IsReported (report_error o t m w)
unfolding report_error mark_failed emit_event
error-IsReported o t m w r h =
    let f = failed_run m (timestamp (o.now w.readings)) in
    (
      chat_error t.run_id t.session_id m,
      last_item-append w.sent _,
      (f r, updated_run t.run_id f w r refl h, refl, refl),
    )

module _ (o : Outside) (settings : Settings) (groups : List Text) (req : ChatRequest) where
  completed-IsReported :
      (s : Served) (t : Opened) (g : Gathered) (w : World) (r : AgentRun)
      → find_run t.run_id w.db ≡ some r
      → IsReported (report_completed o settings groups req s t g w)
  unfolding report_completed account complete_run mark_completed emit_event add_message
  completed-IsReported s t g w r h =
      let output = merge_content_parts g.parts in
      let w₁ = committed (complete_run o t output w) in
      let f = completed_run output (timestamp (o.now w.readings)) in
      let w₂ = (account o settings groups req s t g.input_tokens g.output_tokens w₁).1 in
      let (_, runs, _) =
        record_usage-Accounted o settings (some t.run_id) req.user_id groups (model_of s)
          g.input_tokens g.output_tokens
          (compute_cost_usd (model_of s) g.input_tokens g.output_tokens w₁.db) w₁ refl in
      (
        chat_completed t.run_id t.session_id output,
        last_item-append w₂.sent _,
        (
          f r,
          ap (λ (rs : List AgentRun). first_where (λ x. x.id == t.run_id) rs) runs
              ∙ updated_run t.run_id f w r refl h,
          refl,
          refl,
        ),
      )

  settle-IsReported :
      (s : Served) (t : Opened) (failure : Option Message) (e : LoopEnd) (g : Gathered) (w : World)
      (r : AgentRun)
      → find_run t.run_id w.db ≡ some r
      → (settle_stream o settings groups req s t failure (e, g, w)).0 ≡ ok tt
      → IsReported (settle_stream o settings groups req s t failure (e, g, w)).1
  unfolding settle_stream
  settle-IsReported s t none broken g w r h q = absurd (cc q)
  settle-IsReported s t (some m) broken g w r h q = absurd (cc q)
  settle-IsReported s t none cancelled g w r h q = cancellation-IsReported o t g w r h
  settle-IsReported s t (some m) cancelled g w r h q = cancellation-IsReported o t g w r h
  settle-IsReported s t (some m) finished g w r h q = error-IsReported o t m w r h
  settle-IsReported s t none finished g w r h q = completed-IsReported s t g w r h

  pub stream_turn-IsReported :
      (stream : World → EventStream) (s : Served) (t : Opened) (w : World) (r : AgentRun)
      → find_run t.run_id w.db ≡ some r
      → (stream_turn o settings groups req stream s t w).0 ≡ ok tt
      → IsReported (stream_turn o settings groups req stream s t w).1
  unfolding stream_turn mark_running
  stream_turn-IsReported stream s t w r h q =
      let w₁ =
        sent_after (chat_started t.run_id t.session_id)
          (committed (mark_running o t.run_id (committed w))) in
      let events = stream w₁ in
      let (e, g, v) = forward o t events.events nothing (calling w₁) in
      let f = running_run (timestamp (o.now w.readings)) in
      settle-IsReported s t events.failure e g v (f r)
        (ap (λ (rs : List AgentRun). first_where (λ x. x.id == t.run_id) rs)
            (forward_runs o t events.events nothing (calling w₁))
          ∙ updated_run t.run_id f w r refl h)
        q
