-- ===== src/State/Parameters.antt =====
-- What the modelled code takes from its surroundings, as parameters: the clock, Redis, whether an
-- insert fails, and the runs of agno's agents and teams. The latter come by way of
-- app/agno_runtime/engine.py, which builds the agents, hands the run to agno, maps the names of
-- agno's events, and turns every exception of a run into a RuntimeExecutionError.
use aiplatform.Shared.{ℕ, ◌+◌, ◌≡◌, ◌≢◌, Bool, Option, List, ◌∷◌, Text}
use aiplatform.Errors.{Message}
use aiplatform.Models.{StreamPayload, Json}
use aiplatform.Clock.{Datetime}
use aiplatform.State.Tables.{
  Db, ToolRows, CounterKey, RedisCommand, incrbyfloat, expire, delete_cancel,
}

-- A finished run of an agent or a team: its text, or an exception.
pub data Reply : Type 0 where
  answered : Text → Reply
  failed : Message → Reply

-- An event of a stream: agno's name for it, mapped to the platform's, and its payload.
pub record StreamEvent : Type 0 where
  pub name : Text
  pub payload : StreamPayload

-- A stream: its events, and the exception that ends it, if one does.
pub record EventStream : Type 0 where
  pub events : List StreamEvent
  pub failure : Option Message

-- `ℕ` arguments first: how many readings or calls came before this one, so that nothing is
-- assumed to answer twice in the same way.
pub record Outside : Type 0 where
  pub now : ℕ → Datetime
  pub run_agent : ℕ → ℕ → Text → Reply
  pub run_team : ℕ → ℕ → Text → Reply
  pub run_root : ℕ → ℕ → Text → Reply
  pub stream_agent : ℕ → ℕ → Text → EventStream
  pub stream_team : ℕ → ℕ → Text → EventStream
  pub stream_root : ℕ → ℕ → Text → EventStream
  -- What the tools of the n-th call have written in the session by its k-th event, or, for a call
  -- without events, by its end.
  pub tool_rows : ℕ → ℕ → Db → ToolRows
  -- Is the key `run:cancel:{run}` there at the n-th poll? None where Redis raises.
  pub cancel_requested : ℕ → ℕ → Option Bool
  -- `GET` of a counter after the commands sent so far, the latest first.
  pub redis_get : List RedisCommand → CounterKey → Option ℕ
  -- Is the lock of a schedule won at the n-th call, `SET key 1 NX EX ttl`?
  pub acquire_lock : ℕ → ℕ → Bool
  -- `croniter(expression, anchor).get_next`, if the package can compute it, and `croniter.is_valid`.
  pub cron_next : Text → ℕ → Option ℕ
  pub cron_valid : Text → Bool
  -- tenacity's `stop_after_attempt(m)`, asked after the attempt of that number.
  pub retry_stops : ℕ → ℕ → Bool
  -- `secrets.token_urlsafe(24)`, by the identifier of the row that gets the token.
  pub new_token : ℕ → Text
  -- `hmac.new(secret, body, sha256).hexdigest()`
  pub hmac_sha256 : Text → Text → Text
  -- `json.loads`, unless it raises, `json.dumps` and `str` of a parsed value.
  pub json_loads : Text → Option Json
  pub json_dumps : Json → Text
  pub str_of : Json → Text
  -- Does the insert of a usage event fail?
  pub usage_insert_error : ℕ → Option Message

abbrev pub counter_value : Option ℕ → ℕ
counter_value Option.none = 0
counter_value (Option.some v) = v

-- Redis' documentation of INCRBYFLOAT, EXPIRE and DEL, between expiries.
pub record IsRedis (get : List RedisCommand → CounterKey → Option ℕ) : Type 0 where
  pub incr_self :
      (h : List RedisCommand) (k : CounterKey) (d : ℕ)
      → get (incrbyfloat k d ∷ h) k ≡ Option.some (counter_value (get h k) + d)
  pub incr_other :
      (h : List RedisCommand) (k j : CounterKey) (d : ℕ)
      → k ≢ j
      → get (incrbyfloat k d ∷ h) j ≡ get h j
  pub expire_keeps :
      (h : List RedisCommand) (k j : CounterKey) (d : ℕ) → get (expire k d ∷ h) j ≡ get h j
  pub delete_keeps :
      (h : List RedisCommand) (r : ℕ) (j : CounterKey) → get (delete_cancel r ∷ h) j ≡ get h j
