-- ===== src/Engine/Answers.antt =====
-- What a chat turn hears of a streamed run.
use aiplatform.Shared.{
  ℕ, ◌+◌, ◌≡◌, refl, sym, ap, ◌∙◌, Bool, true, false, Option, none, some, List, [], ◌∷◌, ◌++◌, Text,
  arith, is_filled, ◌&&◌, ◌||◌, if◌then◌else◌, Bool-cases,
}
use mathlib.Core.List.{append-nil, append_assoc}
use aiplatform.Models.{StreamPayload}
use aiplatform.State.{World}
use aiplatform.Chat.Opening.{Gathered, gather, piece, keep_event}
use aiplatform.Shared.{codes, inl, inr}
use aiplatform.Chat.Turn.{drain}
use aiplatform.Engine.Dedupe.{dedupe_self_concatenated}
use aiplatform.Engine.Metrics.{Metrics, sum_metric_field, extract_token_usage}
use aiplatform.Engine.Events.{
  Payload, no_payload, with_tools, with_content, deduped, updated, AgnoEvent, EngineEvent,
  agent_event, team_event, event_name, is_own_delta, is_agent_delta, is_team_delta,
  build_stream_payload,
}
use aiplatform.Engine.Streams.{
  Act, surfaced, proposed, forward_events, completed_events, plan_events,
}
use aiplatform.Engine.Actions.{Collector, propose_to, UiActionPlan}
use mathlib.Core.Path.{subst}
use aiplatform.Engine.Usage.{read_event, read_payload, read_events}

-- The texts of the content events that a predicate picks, each as it is sent on.
abbrev pub words : Bool → Option Text → List Text
words own none = []
words own (some t) = if is_filled t && own then dedupe_self_concatenated t ∷ [] else []

abbrev pub spoken : (AgnoEvent → Bool) → List Act → List Text
spoken own [] = []
spoken own (surfaced a ∷ acts) = words (own a) a.content ++ spoken own acts
spoken own (proposed k p ∷ acts) = spoken own acts

-- A payload whose text the loop takes over as these words, and that carries no usage.
abbrev pub Says : StreamPayload → List Text → Type 0
Says p ws = (piece p ≡ ws) × (p.input_tokens ≡ 0) × (p.output_tokens ≡ 0)

-- A loop body that passes on the text of the events that a predicate picks.
abbrev pub Conveys : (AgnoEvent → EngineEvent) → (AgnoEvent → Bool) → Type 0
Conveys f own = (a : AgnoEvent) → Says (read_event (f a)).payload (words (own a) a.content)

dedupe-filled : (c : ℕ) (t : Text) → is_filled (dedupe_self_concatenated (c ∷ t)) ≡ true
unfolding dedupe_self_concatenated
dedupe-filled c t = ground arith

with_tools-Says :
    (ts : List Text) (p : Payload) (ws : List Text)
    → Says (read_payload p) ws
    → Says (read_payload (with_tools ts p)) ws
unfolding read_payload
with_tools-Says [] p ws h = h
with_tools-Says (t ∷ ts) p ws h = h

abbrev named : Text → Payload
named name = record no_payload { agno_event = some name }

with_content-Says :
    (c : Option Text) (own : Bool) (name : Text)
    → Says (read_payload (with_content (deduped c) own (named name))) (words own c)
unfolding read_payload extract_token_usage
with_content-Says none own name = (refl, refl, refl)
with_content-Says (some []) own name = (refl, refl, refl)
with_content-Says (some (c ∷ t)) true name = (rw (dedupe-filled c t) refl, refl, refl)
with_content-Says (some (c ∷ t)) false name = (rw (dedupe-filled c t) refl, refl, refl)

-- A team's run conveys the texts of its own leader.
pub team_event-Conveys : (own : Text) → Conveys (team_event own) (is_own_delta own)
unfolding team_event read_event
team_event-Conveys own a =
    with_tools-Says a.tools _ _ (with_content-Says a.content (is_own_delta own a) (event_name a))

-- In an agent's run the content events of any team's leader count too.
abbrev pub is_delta : AgnoEvent → Bool
is_delta a = is_agent_delta (event_name a) || is_team_delta (event_name a)

abbrev named_with : Text → Option Text → Payload
named_with name c = record no_payload { agno_event = some name; content = c }

marked-Says :
    (c : Option Text) (own : Bool) (name : Text)
    → Says
        (read_payload (record (named_with name (deduped c)) { is_assistant_content = some own }))
        (words own c)
unfolding read_payload extract_token_usage
marked-Says none own name = (refl, refl, refl)
marked-Says (some []) own name = (refl, refl, refl)
marked-Says (some (c ∷ t)) true name = (rw (dedupe-filled c t) refl, refl, refl)
marked-Says (some (c ∷ t)) false name = (rw (dedupe-filled c t) refl, refl, refl)

-- `dict.update` keeps the content that `_build_stream_payload` took out.
updated-marked :
    (name : Text) (c : Option Text)
    → updated (named_with name c) (build_stream_payload name (named_with name c))
      ≡ record (named_with name c) {
        is_assistant_content = some (is_agent_delta name || is_team_delta name);
      }
unfolding build_stream_payload
updated-marked name none = ground arith
updated-marked name (some t) = ground arith

pub agent_event-Conveys : Conveys agent_event is_delta
unfolding agent_event read_event
agent_event-Conveys a =
    let own = is_delta a in
    let q : Says
        (read_payload (
          updated (named_with (event_name a) (deduped a.content))
            (build_stream_payload (event_name a) (named_with (event_name a) (deduped a.content)))))
        (words own a.content) =
      subst (λ (p : Payload). Says (read_payload p) (words own a.content))
        (sym (updated-marked (event_name a) (deduped a.content)))
        (marked-Says a.content own (event_name a)) in
    with_tools-Says a.tools _ _ q

-- What the loop hears of what a body passes on.
abbrev heard : Gathered → List Text → Gathered
heard g ws = record g { parts = g.parts ++ ws }

gather-Says :
    (p : StreamPayload) (ws : List Text) (g : Gathered) → Says p ws → gather p g ≡ heard g ws
unfolding gather
gather-Says p ws g (a, b, c) = ground (arith, a)

heard_nothing : (g : Gathered) → heard g [] ≡ g
heard_nothing g = rw (append-nil g.parts) refl

heard_twice : (g : Gathered) (us vs : List Text) → heard (heard g us) vs ≡ heard g (us ++ vs)
heard_twice g us vs = rw (append_assoc g.parts us vs) refl

module _ (upper : Text → Text) (f : AgnoEvent → EngineEvent) (own : AgnoEvent → Bool)
    (conveys : Conveys f own) (run_id : ℕ) (rest : List EngineEvent) where
  -- The events of the run first, then the rest.
  pub drain-forwarded :
      (acts : List Act) (cs : List Collector) (g : Gathered) (w : World)
      → (h : World) × (drain run_id (read_events ((forward_events upper f acts cs).0 ++ rest)) g w
          ≡ drain run_id (read_events rest) (heard g (spoken own acts)) h)
  unfolding forward_events drain
  drain-forwarded [] cs g w = (w, rw (heard_nothing g) refl)
  drain-forwarded (surfaced a ∷ acts) cs g w =
      let p = (read_event (f a)).payload in
      let ws = words (own a) a.content in
      let v = keep_event run_id (read_event (f a)) w in
      let (h, e) = drain-forwarded acts cs (heard g ws) v in
      (
        h,
        ap
              (λ (x : Gathered).
                drain run_id (read_events ((forward_events upper f acts cs).0 ++ rest)) x v)
              (gather-Says p ws g (conveys a))
            ∙ e
            ∙ ap (λ (x : Gathered). drain run_id (read_events rest) x h)
                (heard_twice g ws (spoken own acts)),
      )
  drain-forwarded (proposed k p ∷ acts) cs g w = drain-forwarded acts (propose_to upper k p cs) g w

abbrev pub used : Gathered → ℕ × ℕ → Gathered
used g (i, o) = record g { input_tokens = g.input_tokens + i; output_tokens = g.output_tokens + o }

used_nothing : (g : Gathered) → used g (0, 0) ≡ g
used_nothing g = ground arith

drain-plan :
    (run_id : ℕ) (plan : UiActionPlan) (g : Gathered) (w : World)
    → (drain run_id (read_events (plan_events plan)) g w).0 ≡ g
unfolding plan_events drain read_event read_payload extract_token_usage
drain-plan run_id plan g w = elim (Bool-cases (is_filled plan.actions)) [
  | inr empty ↦ rw empty refl
  | inl filled ↦ rw filled (
      gather-Says
        (read_payload
          (record no_payload { is_assistant_content = some false; ui_action_plan = some plan }))
        [] g (refl, refl, refl)
      ∙ heard_nothing g)
]

-- What the loop gathers from the extra events behind a run.
pub drain-completed :
    (run_id : ℕ) (m : Option Metrics) (plan : UiActionPlan) (g : Gathered) (w : World)
    → (drain run_id (read_events (completed_events m ++ plan_events plan)) g w).0
      ≡ used g (extract_token_usage m)
unfolding completed_events drain read_event read_payload extract_token_usage sum_metric_field gather
drain-completed run_id none plan g w = drain-plan run_id plan g w ∙ sym (used_nothing g)
drain-completed run_id (some []) plan g w = drain-plan run_id plan g w ∙ sym (used_nothing g)
drain-completed run_id (some (m ∷ ms)) plan g w =
    let e = read_event (record {
      event_type = codes "agent_completed";
      payload = record no_payload { is_assistant_content = some false; metrics = some (m ∷ ms) };
    }) in
    drain-plan run_id plan (gather e.payload g) (keep_event run_id e w)
    ∙ rw (append-nil g.parts) refl
