-- ===== src/Workflow/Steps.antt =====
-- One step of an execution, seen from outside: the answer that it gets, and the state after it.
use aiplatform.Shared.{ℕ, suc, ◌⊎◌, inl, inr, ◌≡◌, refl, ap, Option, none, some, Text, arith}
use aiplatform.Errors.{Failure, Message, about}
use aiplatform.Exec.{Result, ok, err}
use aiplatform.Models.{WorkflowStep, WorkflowStepType, agent, team}
use aiplatform.State.{Outside, Reply, answered, failed}
use aiplatform.Workflow.Call.{Call}
use aiplatform.Workflow.Runner.{receive, executing, run_step}

answer_to : Outside → ℕ → WorkflowStepType → ℕ → Option ℕ → Option ℕ → Text → Reply
answer_to o n agent id (some a) t x = o.run_agent n a x
answer_to o n agent id none t x = failed (about "AGENT step without agent_id" id)
answer_to o n team id a (some t) x = o.run_team n t x
answer_to o n team id a none x = failed (about "TEAM step without team_id" id)

-- What the `n`-th call of the engine gives for a step's agent or team; a step that has none fails.
unfoldable pub answer : Outside → ℕ → WorkflowStep → Text → Reply
unfolding answer_to
answer o n s x = answer_to o n s.step_type s.id s.agent_id s.team_id x

abbrev active_agent : WorkflowStepType → Option ℕ → Option ℕ
active_agent agent a = a
active_agent team a = none

abbrev active_team : WorkflowStepType → Option ℕ → Option ℕ
active_team agent t = none
active_team team t = t

-- The state after a step that answered.
abbrev pub stepped : WorkflowStep → Call → Call
stepped s c = record c {
  world = record c.world { calls = suc c.world.calls };
  context = record c.context {
    agent_id = active_agent s.step_type s.agent_id;
    team_id = active_team s.step_type s.team_id;
  };
}

pub run_step-answered :
    (o : Outside) (s : WorkflowStep) (x : Text) (c : Call) {y : Text}
    → answer o c.world.calls s x ≡ answered y
    → run_step o s x c ≡ (ok y, stepped s c)
unfolding run_step answer
run_step-answered o s x c h = ground arith

abbrev build : ℕ → ℕ → ℕ → WorkflowStepType → Option ℕ → Option ℕ → WorkflowStep
build id wid order kind a t = record {
  id = id;
  workflow_id = wid;
  step_order = order;
  step_type = kind;
  agent_id = a;
  team_id = t;
}

-- A raise that leaves both databases, the stream and the current record alone.
abbrev pub RaisesQuietly : Result Text × Call → Message → Call → Type 0
RaisesQuietly r m c =
    (e : Failure) × (c' : Call) × (r ≡ (err e, c'))
    × (e.message ≡ m)
    × (c'.world.db ≡ c.world.db)
    × (c'.world.saved ≡ c.world.saved)
    × (c'.world.sent ≡ c.world.sent)
    × (c'.current_record ≡ c.current_record)

build_failed :
    (o : Outside) (id wid order : ℕ) (kind : WorkflowStepType) (a t : Option ℕ) (x : Text)
    (c : Call) (m : Message)
    → answer o c.world.calls (build id wid order kind a t) x ≡ failed m
    → RaisesQuietly (run_step o (build id wid order kind a t) x c) m c
unfolding run_step answer
build_failed o id wid order agent none t x c m h = (_, _, refl, cc, refl, refl, refl, refl)
build_failed o id wid order agent (some a) t x c m h = (
  _,
  _,
  ap (λ (r : Reply). receive r (executing (some a) none c)) h,
  refl,
  refl,
  refl,
  refl,
  refl,
)
build_failed o id wid order team a none x c m h = (_, _, refl, cc, refl, refl, refl, refl)
build_failed o id wid order team a (some t) x c m h = (
  _,
  _,
  ap (λ (r : Reply). receive r (executing none (some t) c)) h,
  refl,
  refl,
  refl,
  refl,
  refl,
)

-- A step that fails raises with the answer's message.
pub run_step-failed :
    (o : Outside) (s : WorkflowStep) (x : Text) (c : Call) (m : Message)
    → answer o c.world.calls s x ≡ failed m
    → RaisesQuietly (run_step o s x c) m c
run_step-failed o s x c m h =
    build_failed o s.id s.workflow_id s.step_order s.step_type s.agent_id s.team_id x c m h

pub Reply-cases : (r : Reply) → ((y : Text) × (r ≡ answered y)) ⊎ ((m : Message) × (r ≡ failed m))
Reply-cases (answered y) = inl (y, refl)
Reply-cases (failed m) = inr (m, refl)
