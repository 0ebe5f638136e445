-- ===== src/Chat/Opened.antt =====
-- The part of `handle_chat_stream` before the stream: it either raises and leaves no run, or opens
-- a turn whose run has its row.
use aiplatform.Shared.{
  ℕ, ◌∙◌, ◌≡◌, refl, sym, ap, ◌⊎◌, inl, inr, false, List, [], ◌∷◌, Text, arith, All, ◌==◌, ◌<◌, ◌≤◌,
  first_where-append, ==-refl,
}
use mathlib.Core.Path.{subst}
use aiplatform.Errors.{Failure, text, raised, ErrorClass}
use aiplatform.Exec.{Result, ok, err, Exec, resume, ◌>>=◌}
use aiplatform.Settings.{Settings}
use aiplatform.Models.{AgentOs, Team, Agent, ChatSession, AgentRun}
use aiplatform.State.{Db, World, Outside, EventStream}
use aiplatform.Quota.Keeping.{assert_within_quota-Untouched}
use aiplatform.Quota.Service.{assert_within_quota}
use aiplatform.Workflow.Session.{add_message}
use aiplatform.Chat.Ended.{HasRun}
use aiplatform.Chat.Runs.{new_run, create_run, emit_event}
use aiplatform.Chat.Dispatch.{
  DispatchContext, runtime_context, team_context, root_context, TeamContext,
}
use aiplatform.Chat.Opening.{
  ChatRequest, Served, Opened, open_turn, model_of, get_or_create_session, session_with, begin_run,
}
use aiplatform.Chat.Stream.{
  stream_turn, opened_stream, agent_stream, team_stream, root_stream, stream_in,
}

-- No run was created, and nothing was sent.
abbrev pub Kept : World → World → Type 0
Kept w v = (v.sent ≡ w.sent) × (v.db.agent_runs ≡ w.db.agent_runs)

-- The same, and no identifier was taken back.
abbrev Before : World → World → Type 0
Before w v = (v.sent ≡ w.sent) × (v.db.agent_runs ≡ w.db.agent_runs) × (w.db.next_id ≤ v.db.next_id)

-- Every run has an identifier that was given out.
abbrev pub RunsBelow : Db → Type 0
RunsBelow d = All (λ r. r.id < d.next_id) d.agent_runs

abbrev pub Begun : World → Opened → World → Type 0
Begun w t u = (u.sent ≡ w.sent) × (RunsBelow w.db → HasRun t.run_id u)

-- A call from `w`: a turn that it opened and streamed, or what a raise leaves.
abbrev pub Streamed : Outside → Settings → World → Result (Unit {0}) × World → Type 0
Streamed o settings w r =
    ((e : Failure) × (r.0 ≡ err e) × Kept w r.1)
    ⊎ ((groups : List Text) × (req : ChatRequest) × (stream : (World → EventStream)) × (s : Served)
        × (t : Opened) × (u : World) × Begun w t u
        × (r ≡ stream_turn o settings groups req stream s t u))

none_above :
    (rs : List AgentRun) (n m : ℕ)
    → n ≤ m
    → All (λ r. r.id < n) rs
    → All (λ r. (r.id == m) ≡ false) rs
none_above [] n m h a = tt
none_above (r ∷ rs) n m h (b, a) = (ground (arith, h, b), none_above rs n m h a)

module _ (o : Outside) (settings : Settings) (groups : List Text) (req : ChatRequest) where
  abbrev session_then_run : Served → Exec World Opened
  session_then_run s = do session ← get_or_create_session req s; begin_run req s session.id

  abbrev with_opened :
      (World → EventStream) → Served → Result Opened × World → Result (Unit {0}) × World
  with_opened stream s (r, v) = resume r (stream_turn o settings groups req stream s) v

  session-Before : (s : Served) (w : World) → Before w (get_or_create_session req s w).1
  unfolding get_or_create_session session_with
  session-Before s w = ground arith

  after_session :
      (stream : World → EventStream) (s : Served) (w : World) (r : Result ChatSession) (v : World)
      → Before w v
      → Streamed o settings w
          (with_opened stream s (resume r (λ session. begin_run req s session.id) v))
  unfolding begin_run create_run emit_event add_message
  after_session stream s w (err e) v (h, k, n) = inl (e, refl, (h, k))
  after_session stream s w (ok session) v (h, k, n) =
      let b = begin_run req s session.id v in
      let t : Opened = record { session_id = session.id; run_id = v.db.next_id } in
      inr (
        groups,
        req,
        stream,
        s,
        t,
        b.1,
        (
          h,
          λ below. (
            new_run v.db.next_id session.id s.agent.id req.message,
            first_where-append (λ r. r.id == v.db.next_id) v.db.agent_runs
                (new_run v.db.next_id session.id s.agent.id req.message)
                (subst (λ (rs : List AgentRun). All (λ r. (r.id == v.db.next_id) ≡ false) rs)
                  (sym k) (none_above w.db.agent_runs w.db.next_id v.db.next_id n below))
                (==-refl v.db.next_id),
          ),
        ),
        refl,
      )

  after_quota :
      (stream : World → EventStream) (s : Served) (w : World) (r : Result (Unit {0})) (v : World)
      → Before w v
      → Streamed o settings w (with_opened stream s (resume r (λ _. session_then_run s) v))
  after_quota stream s w (err e) v (h, k, n) = inl (e, refl, (h, k))
  after_quota stream s w (ok _) v (h, k, n) =
      let u = get_or_create_session req s v in
      let (h', k', n') = session-Before s v in
      after_session stream s w u.0 u.1 (h' ∙ h, k' ∙ k, omega (arith, n, n'))

  opened_stream-Streamed :
      (stream : World → EventStream) (s : Served) (w : World)
      → Streamed o settings w (opened_stream o settings groups req stream s w)
  unfolding open_turn
  opened_stream-Streamed stream s w =
      let a = assert_within_quota o settings req.user_id groups (model_of s) w in
      let (d, _, h) = assert_within_quota-Untouched o settings req.user_id groups (model_of s) w in
      after_quota stream s w a.0 a.1 (h, ap (λ (x : Db). x.agent_runs) d, rw d (omega arith))

  team_stream-Streamed :
      (os : AgentOs) (t : Team) (members : List Agent) (w : World)
      → Streamed o settings w (
          team_stream o settings groups req
            (record { agent_os = os; team = t; members = members })
            w)
  unfolding team_stream
  team_stream-Streamed os t [] w =
      inl (raised ErrorClass.other (text "IndexError"), refl, (refl, refl))
  team_stream-Streamed os t (a ∷ as') w =
      opened_stream-Streamed (λ v. o.stream_team v.calls t.id req.message)
        (record { agent_os = os; team = t; agent = a }) w

  root_stream-Streamed :
      (os os' : AgentOs) (t : Team) (members : List Agent) (cs : List TeamContext) (w : World)
      → Streamed o settings w (
          root_stream o settings groups req os
            (record { agent_os = os'; team = t; members = members } ∷ cs)
            w)
  unfolding root_stream
  root_stream-Streamed os os' t [] cs w =
      inl (raised ErrorClass.other (text "IndexError"), refl, (refl, refl))
  root_stream-Streamed os os' t (a ∷ as') cs w =
      opened_stream-Streamed (λ v. o.stream_root v.calls os.id req.message)
        (record { agent_os = os; team = t; agent = a }) w

  stream_in-Streamed :
      (c : DispatchContext) (w : World)
      → Streamed o settings w (stream_in o settings groups req c w)
  unfolding stream_in agent_stream root_stream
  stream_in-Streamed (runtime_context os team agent) w =
      opened_stream-Streamed (λ v. o.stream_agent v.calls agent.id req.message)
        (record { agent_os = os; team = team; agent = agent }) w
  stream_in-Streamed (team_context c) w = team_stream-Streamed c.agent_os c.team c.members w
  stream_in-Streamed (root_context os []) w =
      inl (raised ErrorClass.other (text "IndexError"), refl, (refl, refl))
  stream_in-Streamed (root_context os (c ∷ cs)) w =
      root_stream-Streamed os c.agent_os c.team c.members cs w

pub resolved-Streamed :
    (o : Outside) (settings : Settings) (groups : List Text) (req : ChatRequest)
    (r : Result DispatchContext) (w : World)
    → Streamed o settings w (resume r (stream_in o settings groups req) w)
resolved-Streamed o settings groups req (ok c) w = stream_in-Streamed o settings groups req c w
resolved-Streamed o settings groups req (err e) w = inl (e, refl, (refl, refl))
