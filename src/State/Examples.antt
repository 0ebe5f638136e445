-- ===== src/State/Examples.antt =====
-- Concrete states and a concrete environment: an empty database, agents that repeat their input,
-- and a Redis that is computed from the commands sent.
use aiplatform.Shared.{
  ℕ, suc, leb, ◌+◌, refl, true, false, Option, none, some, List, [], ◌∷◌, ◌++◌, Text,
}
use aiplatform.Settings.{Settings, AuthMode}
use aiplatform.Clock.{Datetime}
use aiplatform.State.Tables.{Db, CounterKey, RedisCommand, incrbyfloat, expire, delete_cancel}
use aiplatform.State.Parameters.{Outside, EventStream, answered, IsRedis, counter_value}
use aiplatform.State.Rows.{World}
use aiplatform.Models.{Json}
use native.Mathlib.Decide.{ℕ_discrete}
use mathlib.Core.Logic.{ite, if_pos, if_neg}

abbrev pub empty_db : Db
empty_db = record {
  next_id = 100;
  agent_oses = [];
  teams = [];
  agents = [];
  agent_os_capabilities = [];
  team_capabilities = [];
  agent_capabilities = [];
  skill_capabilities = [];
  agent_skills = [];
  skills = [];
  attachments = [];
  agent_memories = [];
  prompts = [];
  model_registry = [];
  workflows = [];
  workflow_steps = [];
  workflow_schedules = [];
  workflow_webhooks = [];
  chat_sessions = [];
  chat_messages = [];
  workflow_runs = [];
  workflow_run_steps = [];
  workflow_events = [];
  agent_runs = [];
  agent_events = [];
  execution_plan_runs = [];
  execution_plan_step_runs = [];
  quota_policies = [];
  quota_usage_events = [];
}

abbrev pub blank : Db → World
blank d = record { db = d; saved = d; readings = 0; calls = 0; redis = []; sent = [] }

CounterKey-discrete : Discrete CounterKey
CounterKey-discrete = hlevel ℕ_discrete

-- A counter's value, from the latest command back.
pub counting : List RedisCommand → CounterKey → Option ℕ
counting [] k = none
counting (incrbyfloat j d ∷ h) k =
    let old = counting h k in ite (CounterKey-discrete j k) (some (counter_value old + d)) old
counting (expire j d ∷ h) k = counting h k
counting (delete_cancel r ∷ h) k = counting h k

pub counting-IsRedis : IsRedis counting
unfolding counting
counting-IsRedis = record {
  incr_self = λ h k d. rw (if_pos (CounterKey-discrete k k) refl);
  incr_other = λ h k j d ne. rw (if_neg (CounterKey-discrete k j) ne);
  expire_keeps = λ h k j d. refl;
  delete_keeps = λ h r j. refl;
}

abbrev pub noon : Datetime
noon = record { year = 2024; month = 5; day = 1; second = 43200 }

abbrev pub silent : EventStream
silent = record { events = []; failure = none }

abbrev str_of_string : Json → Text
str_of_string (Json.string t) = t
str_of_string _ = []

-- Every agent answers with its input, nothing is cancelled, and no insert fails.
abbrev pub echo : Outside
echo = record {
  now = λ n. noon;
  run_agent = λ n a t. answered t;
  run_team = λ n a t. answered t;
  run_root = λ n a t. answered t;
  stream_agent = λ n a t. silent;
  stream_team = λ n a t. silent;
  stream_root = λ n a t. silent;
  tool_rows = λ n k d. record {
    next_id = d.next_id;
    agent_memories = d.agent_memories;
    chat_sessions = d.chat_sessions;
    chat_messages = d.chat_messages;
    workflow_runs = d.workflow_runs;
    workflow_run_steps = d.workflow_run_steps;
    workflow_events = d.workflow_events;
  };
  cancel_requested = λ n r. some false;
  acquire_lock = λ n id. true;
  cron_next = λ e t. some (suc t);
  cron_valid = λ e. true;
  retry_stops = λ m n. leb m n;
  new_token = λ n. n ∷ [];
  hmac_sha256 = λ secret body. secret ++ body;
  json_loads = λ t. some (Json.string t);
  json_dumps = λ v. [];
  str_of = str_of_string;
  redis_get = counting;
  usage_insert_error = λ n. none;
}

abbrev pub all_on : Settings
all_on = record {
  feature_quota_management = true;
  feature_execution_engine = true;
  feature_planning_engine = true;
  feature_ui_skills = true;
  feature_keycloak_auth = true;
  auth_mode = AuthMode.trust_client_user_id;
  keycloak_issuer_url = none;
  keycloak_realm = none;
  keycloak_jwks_url = none;
  keycloak_audience = none;
  openai_api_key = none;
  anthropic_api_key = none;
}
