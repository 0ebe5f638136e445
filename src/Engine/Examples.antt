-- ===== src/Engine/Examples.antt =====
-- Runs of the agent and of its team, and the theorems applied to them.
use aiplatform.Shared.{◌≡◌, ◌≢◌, refl, some, [], ◌∷◌, codes}
use aiplatform.Errors.{Message, Failure, ErrorClass}
use aiplatform.Exec.{ok, err}
use aiplatform.State.Examples.{blank, echo}
use aiplatform.Chat.Opening.{Opened}
use aiplatform.Engine.Actions.{ActionType, action_of}
use aiplatform.Engine.Dedupe.{dedupe_self_concatenated}
use aiplatform.Engine.Tools.{
  mcp_tools, propose_ui_action, trigger_workflow, remember_fact, has_action_tool, tools_of,
}
use aiplatform.Engine.Runs.{open_agent, run_stream}
use aiplatform.Engine.Plans.{run_stream_plan}
use aiplatform.Engine.Triggers.{IsStopped, refusal, trigger_workflow-IsContained}
use aiplatform.Engine.Fixtures.{
  office, toolkit, ask, fill, agno, idle, ready, context, trigger_leave, nested, call_trigger, spec,
}

-- A common delta loses half of its line breaks.
two_breaks : dedupe_self_concatenated (10 ∷ 10 ∷ []) ≡ 10 ∷ []
unfolding dedupe_self_concatenated
two_breaks = refl

tools_given :
    tools_of toolkit context ask 0 office
    ≡ mcp_tools (codes "mail" ∷ [])
      ∷ propose_ui_action 0
      ∷ trigger_workflow trigger_leave
      ∷ remember_fact 5 (codes "alice")
      ∷ []
unfolding tools_of
tools_given = refl

opened : open_agent agno office ask context idle ≡ (ok spec, ready)
unfolding open_agent
opened = refl

run_stream_plan_example :
    (run_stream agno office ask context idle).1.last_ui_action_plan
    ≡ some (record {
      dsl_version = 1;
      run_id = some (codes "s");
      actions =
          action_of (fill "FILL_FORM") ActionType.fill_form 0
          ∷ action_of (fill "CLICK_BUTTON") ActionType.click_button 1
          ∷ [];
    })
unfolding has_action_tool
run_stream_plan_example = run_stream_plan agno office ask idle ready context spec opened refl refl

abbrev turn : Opened
turn = record { session_id = 1; run_id = 1 }

-- The trigger of a workflow that a workflow triggered, with the skill's default depth.
trigger_workflow-IsContained_example :
    ((x : Failure)
      → (call_trigger trigger_leave (codes "3 days") nested (blank office)).0 ≡ err x
      → x.kind ≢ ErrorClass.runtime_execution_failed)
    × ((call_trigger trigger_leave (codes "3 days") nested (blank office)).1.saved ≡ office)
    × (IsStopped echo agno.shown toolkit.parse_uuid trigger_leave nested
        → (m : Message) × (call_trigger trigger_leave (codes "3 days") nested (blank office)
            ≡ (ok (refusal echo agno.shown toolkit.parse_uuid trigger_leave m), blank office)))
trigger_workflow-IsContained_example =
    trigger_workflow-IsContained echo agno.shown toolkit.parse_uuid trigger_leave (codes "3 days")
      nested (blank office)
