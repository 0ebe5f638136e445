-- ===== src/Engine/Plans.antt =====
-- The plan of an agent's run has the actions that the agent proposed, in order.
use aiplatform.Shared.{
  ℕ, zero, suc, ◌≤◌, ◌≡◌, refl, sym, ap, ◌∙◌, Bool, true, arith, Option, none, some, List, [], ◌∷◌,
  ◌++◌, Text, ltb, length, length-append, All, IsSorted, sort_by, sort_by_sorted, Option-cases, inl,
  inr, if◌then◌else◌,
}
use mathlib.Core.List.{append-nil, append_assoc}
use aiplatform.Exec.{Result, ok, err}
use aiplatform.Errors.{Failure, Message}
use aiplatform.State.{Db}
use aiplatform.Memory.ModelChoice.{ModelClient}
use aiplatform.Engine.Actions.{
  ActionType, UiAction, Collector, Proposal, EngineState, action_types, action_of, get_key,
  propose_ui_action, propose_to, aggregate_ui_action_plan, reset_ui_action_collectors,
}
use aiplatform.Engine.Events.{AgnoEvent, EngineEvent, agent_event}
use aiplatform.Engine.Streams.{
  Act, surfaced, proposed, AgnoRun, forward_events, finish_stream, stream_from, stream_run,
}
use aiplatform.Engine.Contexts.{ResolvedRuntimeContext}
use aiplatform.Engine.Assembly.{
  AgentSpec, new_collectors, finish_agent, prepare_agent, build_agno_agent,
}
use aiplatform.Engine.Tools.{Request, has_action_tool}
use aiplatform.Engine.Runs.{Agno, started, unless_refused, open_agent, run_stream}

module _ (upper : Text → Text) where
  -- The type of an action that the tool accepts.
  abbrev pub accepted_type : Proposal → Option ActionType
  accepted_type p =
      if ltb 1000 p.confidence then none else get_key (upper p.action_type) action_types

  abbrev add_accepted :
      Option ActionType → Proposal → ℕ → List UiAction → List UiAction → List UiAction
  add_accepted none p n same next = same
  add_accepted (some t) p n same next = action_of p t n ∷ next

  -- The accepted proposals of the first agent, numbered from `n`.
  abbrev pub accepted : ℕ → List Act → List UiAction
  accepted n [] = []
  accepted n (surfaced a ∷ acts) = accepted n acts
  accepted n (proposed (suc k) p ∷ acts) = accepted n acts
  accepted n (proposed zero p ∷ acts) =
      add_accepted (accepted_type p) p n (accepted n acts) (accepted (suc n) acts)

  abbrev order_of : UiAction → ℕ
  order_of a = a.execution_order

  accepted_from : (n m : ℕ) (acts : List Act) → m ≤ n → All (λ a. m ≤ order_of a) (accepted n acts)
  accepted_from n m [] h = tt
  accepted_from n m (surfaced a ∷ acts) h = accepted_from n m acts h
  accepted_from n m (proposed (suc k) p ∷ acts) h = accepted_from n m acts h
  accepted_from n m (proposed zero p ∷ acts) h = elim (Option-cases (accepted_type p)) [
    | inl e ↦ rw e (accepted_from n m acts h)
    | inr (t, e) ↦ rw e (h, accepted_from (suc n) m acts (omega arith))
  ]

  weaken :
      (n : ℕ) (as' : List UiAction)
      → All (λ a. suc n ≤ order_of a) as'
      → All (λ a. n ≤ order_of a) as'
  weaken n [] h = tt
  weaken n (a ∷ as') (h, hs) = (omega arith, weaken n as' hs)

  accepted-IsSorted : (n : ℕ) (acts : List Act) → IsSorted order_of (accepted n acts)
  accepted-IsSorted n [] = tt
  accepted-IsSorted n (surfaced a ∷ acts) = accepted-IsSorted n acts
  accepted-IsSorted n (proposed (suc k) p ∷ acts) = accepted-IsSorted n acts
  accepted-IsSorted n (proposed zero p ∷ acts) = elim (Option-cases (accepted_type p)) [
    | inl e ↦ rw e (accepted-IsSorted n acts)
    | inr (t, e) ↦ rw e (
      weaken n (accepted (suc n) acts) (accepted_from (suc n) (suc n) acts (omega arith)),
      accepted-IsSorted (suc n) acts,
    )
  ]

  abbrev holding : List UiAction → Collector
  holding as' = record { actions = as' }

  -- What a call of the tool does to the collector.
  proposal_kept :
      (p : Proposal) (as' : List UiAction)
      → accepted_type p ≡ none
      → (propose_ui_action upper p (holding as')).1 ≡ holding as'
  unfolding propose_ui_action
  proposal_kept p as' h = ground (arith, h)

  proposal_added :
      (p : Proposal) (as' : List UiAction) (t : ActionType)
      → accepted_type p ≡ some t
      → (propose_ui_action upper p (holding as')).1
        ≡ holding (as' ++ action_of p t (length as') ∷ [])
  unfolding propose_ui_action
  proposal_added p as' t h = ground (arith, h)

  collected :
      (f : AgnoEvent → EngineEvent) (acts : List Act) (as' : List UiAction)
      → (forward_events upper f acts (holding as' ∷ [])).1
        ≡ holding (as' ++ accepted (length as') acts) ∷ []
  unfolding forward_events propose_to
  collected f [] as' = rw (append-nil as') refl
  collected f (surfaced a ∷ acts) as' = collected f acts as'
  collected f (proposed (suc k) p ∷ acts) as' = collected f acts as'
  collected f (proposed zero p ∷ acts) as' = elim (Option-cases (accepted_type p)) [
    | inl e ↦
        ap (λ (c : Collector). (forward_events upper f acts (c ∷ [])).1) (proposal_kept p as' e)
        ∙ collected f acts as'
        ∙ rw e refl
    | inr (t, e) ↦
        let a = action_of p t (length as') in
        let n : length (as' ++ a ∷ []) ≡ suc (length as') =
          omega (arith, length-append {0} as' (a ∷ [])) in
        ap (λ (c : Collector). (forward_events upper f acts (c ∷ [])).1) (proposal_added p as' t e)
        ∙ collected f acts (as' ++ a ∷ [])
        ∙ rw (n, e)
            (ap (λ (x : List UiAction). holding x ∷ [])
              (append_assoc as' (a ∷ []) (accepted (suc (length as')) acts)))
  ]

  aggregated :
      (session_id : Text) (f : AgnoEvent → EngineEvent) (acts : List Act)
      → aggregate_ui_action_plan (some session_id) (forward_events upper f acts (holding [] ∷ [])).1
        ≡ record { dsl_version = 1; run_id = some session_id; actions = accepted 0 acts }
  unfolding aggregate_ui_action_plan
  aggregated session_id f acts =
      ap (aggregate_ui_action_plan (some session_id)) (collected f acts [])
      ∙ ap
          (λ (as' : List UiAction). record {
            dsl_version = 1;
            run_id = some session_id;
            actions = as';
          })
          (ap (sort_by order_of) (append-nil (accepted 0 acts))
            ∙ sort_by_sorted order_of (accepted 0 acts) (accepted-IsSorted 0 acts))

-- What a run starts with, once the agent is there.
finish_agent-collectors :
    (g : Agno) (d : Db) (req : Request) (ctx : ResolvedRuntimeContext) (e e₁ : EngineState)
    (spec : AgentSpec) (r : Result (ModelClient × Text))
    → finish_agent g.toolkit ctx req d e r ≡ (ok spec, e₁)
    → e₁.collectors
      ≡ new_collectors (has_action_tool g.toolkit.settings ctx.agent.id d) e.collectors
unfolding finish_agent
finish_agent-collectors g d req ctx e e₁ spec (err x) h = cc h
finish_agent-collectors g d req ctx e e₁ spec (ok (model, instructions)) h =
    sym (ap (λ (x : Result AgentSpec × EngineState). x.1.collectors) h)

unless_refused-ok :
    (x : Option Failure) (e : EngineState) (r : Result AgentSpec × EngineState) (spec : AgentSpec)
    (e₁ : EngineState)
    → unless_refused x e r ≡ (ok spec, e₁)
    → r ≡ (ok spec, e₁)
unless_refused-ok none e r spec e₁ h = h
unless_refused-ok (some x) e r spec e₁ h = cc h

module _ (g : Agno) (d : Db) (req : Request) (e e₁ : EngineState) where
  open_agent-collectors :
      (ctx : ResolvedRuntimeContext) (spec : AgentSpec)
      → open_agent g d req ctx (reset_ui_action_collectors e) ≡ (ok spec, e₁)
      → e₁.collectors ≡ new_collectors (has_action_tool g.toolkit.settings ctx.agent.id d) []
  unfolding open_agent build_agno_agent
  open_agent-collectors ctx spec h =
      finish_agent-collectors g d req ctx (reset_ui_action_collectors e) e₁ spec
        (prepare_agent g.toolkit ctx req d)
        (unless_refused-ok (g.open_session ctx.effective_capabilities)
          (reset_ui_action_collectors e)
          (build_agno_agent g.toolkit ctx req d (reset_ui_action_collectors e)) spec e₁ h)

  -- After the streamed run of an agent that may propose actions, if it does not fail, the plan has
  -- the proposals that the tool accepted, each once and in the order in which they were made, and
  -- their `executionOrder` counts from 0.
  pub run_stream_plan :
      (ctx : ResolvedRuntimeContext) (spec : AgentSpec)
      → open_agent g d req ctx (reset_ui_action_collectors e) ≡ (ok spec, e₁)
      → has_action_tool g.toolkit.settings ctx.agent.id d ≡ true
      → (g.stream_agent spec req.message).failure ≡ none
      → (run_stream g d req ctx e).1.last_ui_action_plan
        ≡ some (record {
          dsl_version = 1;
          run_id = some req.session_id;
          actions = accepted g.upper 0 (g.stream_agent spec req.message).acts;
        })
  unfolding run_stream stream_run stream_from finish_stream
  run_stream_plan ctx spec opened able finished =
      let run = g.stream_agent spec req.message in
      let collectors : e₁.collectors ≡ (record { actions = [] }) ∷ [] =
        open_agent-collectors ctx spec opened ∙ ap (λ (b : Bool). new_collectors b []) able in
      ap
        (λ (x : Result AgnoRun × EngineState).
          (stream_from g.upper g.shown agent_event req.session_id x).1.last_ui_action_plan)
        (ap (started (λ (a : AgentSpec). g.stream_agent a req.message)) opened)
      ∙ ap
          (λ (m : Option Message).
            (finish_stream g.shown req.session_id m run.run_response
              (forward_events g.upper agent_event run.acts e₁.collectors) e₁).1.last_ui_action_plan)
          finished
      ∙ ap
          (λ (cs : List Collector). some (
            aggregate_ui_action_plan (some req.session_id)
              (forward_events g.upper agent_event run.acts cs).1))
          collectors
      ∙ ap some (aggregated g.upper req.session_id agent_event run.acts)
