-- ===== src/Engine/Actions.antt =====
-- app/uiaction/models.py and app/uiaction/service.py: actions on the user interface that an agent
-- proposes, and `_aggregate_ui_action_plan` of app/agno_runtime/engine.py.
use aiplatform.Shared.{
  ℕ, zero, suc, Option, none, some, List, [], ◌∷◌, ◌++◌, Text, codes, same_text, ltb, length,
  sort_by, if◌then◌else◌,
}
use aiplatform.Errors.{text, raised, ErrorClass}
use aiplatform.Exec.{Result, ok, err}

pub data ActionType : Type 0 where
  fill_form set_value select_value click_button navigate open_dialog close_dialog : ActionType
  upload_file download_file focus_component highlight_component expand_tree : ActionType
  collapse_tree refresh_grid validate_form : ActionType

-- The values of the enumeration.
abbrev pub action_types : List (Text × ActionType)
action_types =
    (codes "FILL_FORM", ActionType.fill_form)
    ∷ (codes "SET_VALUE", ActionType.set_value)
    ∷ (codes "SELECT_VALUE", ActionType.select_value)
    ∷ (codes "CLICK_BUTTON", ActionType.click_button)
    ∷ (codes "NAVIGATE", ActionType.navigate)
    ∷ (codes "OPEN_DIALOG", ActionType.open_dialog)
    ∷ (codes "CLOSE_DIALOG", ActionType.close_dialog)
    ∷ (codes "UPLOAD_FILE", ActionType.upload_file)
    ∷ (codes "DOWNLOAD_FILE", ActionType.download_file)
    ∷ (codes "FOCUS_COMPONENT", ActionType.focus_component)
    ∷ (codes "HIGHLIGHT_COMPONENT", ActionType.highlight_component)
    ∷ (codes "EXPAND_TREE", ActionType.expand_tree)
    ∷ (codes "COLLAPSE_TREE", ActionType.collapse_tree)
    ∷ (codes "REFRESH_GRID", ActionType.refresh_grid)
    ∷ (codes "VALIDATE_FORM", ActionType.validate_form)
    ∷ []

-- `d.get(key)` on a dict with text keys
abbrev pub get_key {ℓ} : {A : Type ℓ} → Text → List (Text × A) → Option A
get_key k [] = none
get_key k ((j, a) ∷ rest) = if same_text k j then some a else get_key k rest

-- `confidence` in thousandths.
pub record UiAction : Type 0 where
  pub action_type : ActionType
  pub target : Text
  pub value : Option Text
  pub reason : Option Text
  pub business_meaning : Option Text
  pub confidence : ℕ
  pub execution_order : ℕ

pub record UiActionPlan : Type 0 where
  pub dsl_version : ℕ
  pub run_id : Option Text
  pub actions : List UiAction

-- `UIActionPlanCollector`
pub record Collector : Type 0 where
  pub actions : List UiAction

-- The arguments of a call of the tool.
pub record Proposal : Type 0 where
  pub action_type : Text
  pub target : Text
  pub value : Option Text
  pub reason : Option Text
  pub business_meaning : Option Text
  pub confidence : ℕ

-- What the tool tells the model.
pub data ToolAnswer : Type 0 where
  unknown_action : Text → ToolAnswer
  added : ActionType → Text → ToolAnswer

abbrev pub action_of : Proposal → ActionType → ℕ → UiAction
action_of p t n = record {
  action_type = t;
  target = p.target;
  value = p.value;
  reason = p.reason;
  business_meaning = p.business_meaning;
  confidence = p.confidence;
  execution_order = n;
}

-- `propose_ui_action`; `upper` is `str.upper`. The model checks that the confidence is at most 1.
unfoldable pub propose_ui_action :
    (Text → Text) → Proposal → Collector → Result ToolAnswer × Collector
propose_ui_action upper p c = elim (get_key (upper p.action_type) action_types) [
  | none ↦ (ok (unknown_action p.action_type), c)
  | some t ↦
      if ltb 1000 p.confidence
      then (err (raised ErrorClass.other (text "ValidationError: confidence")), c)
      else (
        ok (added t p.target),
        record { actions = c.actions ++ action_of p t (length c.actions) ∷ [] },
      )
]

-- What the engine keeps of a run.
pub record EngineState : Type 0 where
  pub collectors : List Collector
  pub last_ui_action_plan : Option UiActionPlan

abbrev pub reset_ui_action_collectors : EngineState → EngineState
reset_ui_action_collectors e = record { collectors = []; last_ui_action_plan = none }

abbrev pub all_actions : List Collector → List UiAction
all_actions [] = []
all_actions (c ∷ cs) = c.actions ++ all_actions cs

unfoldable pub aggregate_ui_action_plan : Option Text → List Collector → UiActionPlan
unfolding sort_by
aggregate_ui_action_plan run_id cs = record {
  dsl_version = 1;
  run_id = run_id;
  actions = sort_by (λ (a : UiAction). a.execution_order) (all_actions cs);
}

-- A call of the tool of the collector of that number; without one nothing is called.
unfoldable pub propose_to : (Text → Text) → ℕ → Proposal → List Collector → List Collector
unfolding propose_ui_action
propose_to upper k p [] = []
propose_to upper zero p (c ∷ cs) = (propose_ui_action upper p c).1 ∷ cs
propose_to upper (suc k) p (c ∷ cs) = c ∷ propose_to upper k p cs
