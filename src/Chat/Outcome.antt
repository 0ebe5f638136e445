-- ===== src/Chat/Outcome.antt =====
-- `handle_chat_stream` as a whole.
use aiplatform.Shared.{◌≡◌, sym, ap, ◌∙◌, ◌⊎◌, inl, inr, Option}
use mathlib.Core.Path.{subst}
use aiplatform.Chat.Durable.{stream_turn-IsDurable}
use aiplatform.Chat.Ended.{IsReported, stream_turn-IsReported}
use aiplatform.Chat.Opened.{Kept, RunsBelow, Streamed, resolved-Streamed}
use aiplatform.State.Durable.{IsDurable, durable_as}
use aiplatform.Errors.{Failure}
use aiplatform.Exec.{Result, ok, err}
use aiplatform.Settings.{Settings}
use aiplatform.State.{World, Outside}
use aiplatform.Identity.Tokens.{VerifiedIdentity}
use aiplatform.Chat.Identity.{resolve_effective_user_id}
use aiplatform.Chat.Dispatch.{resolve_dispatch_context}
use aiplatform.Chat.Opening.{ChatRequest}
use aiplatform.Chat.Turn.{identified}
use aiplatform.Chat.Polled.{PollFailed, stream_turn_lost_poll}
use aiplatform.Chat.Stream.{redis_failed, handle_chat_stream}

module _ (o : Outside) (settings : Settings) (w : World) (r : Result (Unit {0}) × World) where
  IsDurable-of_Streamed : Streamed o settings w r → IsDurable w → IsDurable r.1
  IsDurable-of_Streamed (inl (e, _, (h, _))) d = durable_as r.1.sent w.sent h d
  IsDurable-of_Streamed (inr (groups, req, stream, s, t, u, (kept, _), e)) d =
      subst (λ (x : Result (Unit {0}) × World). IsDurable x.1) (sym e)
        (stream_turn-IsDurable o settings groups req stream s t u (durable_as u.sent w.sent kept d))

  -- A call that raises had not begun its turn, or ended by a poll that Redis failed.
  abbrev pub IsRaised : Failure → Type 0
  IsRaised e = Kept w r.1 ⊎ ((e ≡ redis_failed) × PollFailed o)

  IsRaised-of_Streamed : (e : Failure) → Streamed o settings w r → r.0 ≡ err e → IsRaised e
  IsRaised-of_Streamed e (inl (_, _, h)) q = inl h
  IsRaised-of_Streamed e (inr (groups, req, stream, s, t, u, _, p)) q = inr (
      stream_turn_lost_poll o settings groups req stream s t u e
        (sym (ap (λ (x : Result (Unit {0}) × World). x.0) p) ∙ q))

  IsReported-of_Streamed : Streamed o settings w r → RunsBelow w.db → r.0 ≡ ok tt → IsReported r.1
  IsReported-of_Streamed (inl (e, q, _)) below h = absurd (cc (q, h))
  IsReported-of_Streamed (inr (groups, req, stream, s, t, u, (_, has), e)) below h =
      let (row, found) = has below in
      subst (λ (x : Result (Unit {0}) × World). IsReported x.1) (sym e)
        (stream_turn-IsReported o settings groups req stream s t u row found
          (sym (ap (λ (x : Result (Unit {0}) × World). x.0) e) ∙ h))

module _ (o : Outside) (settings : Settings) (identity : Option VerifiedIdentity)
    (req : ChatRequest) (w : World) where
  abbrev pub streamed : Result (Unit {0}) × World
  streamed = handle_chat_stream o settings identity req w

  chat_stream-Streamed : Streamed o settings w streamed
  unfolding handle_chat_stream
  chat_stream-Streamed =
      let (user_id, groups) = resolve_effective_user_id identity req.user_id settings.auth_mode in
      resolved-Streamed o settings groups (identified user_id req)
        (resolve_dispatch_context req.agent_os req.team w.db) w

  -- If all that was yielded before the call was committed then: whatever a streaming chat call
  -- yields, at that moment the database has committed all that the
  -- session holds: a client never sees an event, an answer, an error or a cancellation that a later
  -- rollback could undo.
  pub handle_chat_stream-IsDurable : IsDurable w → IsDurable streamed.1
  handle_chat_stream-IsDurable h =
      IsDurable-of_Streamed o settings w streamed chat_stream-Streamed h

  -- A streaming chat call that raises, for instance because a quota is exhausted, the team is
  -- disabled or the session is another user's, has created no run and has yielded nothing, unless
  -- what it raises is the exception of Redis' at a poll of the cancel key. The other commands of
  -- Redis are taken to answer.
  pub handle_chat_stream-Kept :
      (e : Failure) → streamed.0 ≡ err e → IsRaised o settings w streamed e
  handle_chat_stream-Kept e q = IsRaised-of_Streamed o settings w streamed e chat_stream-Streamed q

  -- A streaming chat call that does not raise closes its stream with an answer, an error or a
  -- cancellation, and the run that this last item names has ended accordingly: COMPLETED with
  -- the answer as its output, FAILED with the error's message, or CANCELLED with the part of the
  -- answer that came before, if there is one. No run may have an identifier that was not given out.
  pub handle_chat_stream-IsReported : RunsBelow w.db → streamed.0 ≡ ok tt → IsReported streamed.1
  handle_chat_stream-IsReported below q =
      IsReported-of_Streamed o settings w streamed chat_stream-Streamed below q
