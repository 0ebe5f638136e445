-- ===== src/Chat/Polled.antt =====
-- Why a streamed turn raises: a poll of the cancel key failed.
use aiplatform.Shared.{ℕ, ◌≡◌, refl, inl, inr, Option, none, some, List, [], ◌∷◌, Text}
use aiplatform.Errors.{Failure, Message}
use aiplatform.Exec.{err}
use aiplatform.Settings.{Settings}
use aiplatform.State.{
  World, Outside, StreamEvent, EventStream, committed, sent_after, calling, after_tools, chat_event,
  chat_started,
}
use aiplatform.Chat.Runs.{mark_running}
use aiplatform.Chat.Opening.{ChatRequest, Served, Opened, Gathered, nothing, gather, keep_event}
use aiplatform.Chat.Durable.{Poll-cases}
use aiplatform.Chat.Stream.{
  LoopEnd, broken, cancelled, finished, redis_failed, forward, settle_stream, stream_turn,
}

-- A poll that Redis failed.
abbrev pub PollFailed : Outside → Type 0
PollFailed o = (n : ℕ) × (run_id : ℕ) × (o.cancel_requested n run_id ≡ none)

forward_lost_poll :
    (o : Outside) (t : Opened) (es : List StreamEvent) (g : Gathered) (w : World)
    → (forward o t es g w).0 ≡ broken
    → PollFailed o
unfolding forward
forward_lost_poll o t [] g w h = absurd (cc h)
forward_lost_poll o t (e ∷ es) g w h = elim (Poll-cases (o.cancel_requested w.calls t.run_id)) [
  | inl c ↦ (w.calls, t.run_id, c)
  | inr (inl c) ↦ absurd (cc (rw (forward, c) at h))
  | inr (inr c) ↦
      forward_lost_poll o t es (gather e.payload g)
        (sent_after (chat_event t.run_id t.session_id e.name e.payload)
          (committed (keep_event t.run_id e (calling (after_tools o 0 w)))))
        (rw (forward, c) at h)
]

module _ (o : Outside) (settings : Settings) (groups : List Text) (req : ChatRequest) where
  settled_err :
      (s : Served) (t : Opened) (failure : Option Message) (l : LoopEnd) (g : Gathered) (w : World)
      (e : Failure)
      → (settle_stream o settings groups req s t failure (l, g, w)).0 ≡ err e
      → (l ≡ broken) × (e ≡ redis_failed)
  unfolding settle_stream
  settled_err s t none broken g w e h = (refl, cc)
  settled_err s t (some m) broken g w e h = (refl, cc)
  settled_err s t none cancelled g w e h = absurd (cc h)
  settled_err s t (some m) cancelled g w e h = absurd (cc h)
  settled_err s t none finished g w e h = absurd (cc h)
  settled_err s t (some m) finished g w e h = absurd (cc h)

  pub stream_turn_lost_poll :
      (stream : World → EventStream) (s : Served) (t : Opened) (w : World) (e : Failure)
      → (stream_turn o settings groups req stream s t w).0 ≡ err e
      → (e ≡ redis_failed) × PollFailed o
  unfolding stream_turn
  stream_turn_lost_poll stream s t w e h =
      let w₁ =
        sent_after (chat_started t.run_id t.session_id)
          (committed (mark_running o t.run_id (committed w))) in
      let events = stream w₁ in
      let (l, g, v) = forward o t events.events nothing (calling w₁) in
      let (b, f) = settled_err s t events.failure l g v e h in
      (f, forward_lost_poll o t events.events nothing (calling w₁) b)
