-- ===== src/Lib.antt =====
-- The agent runtime platform: a FastAPI service that runs agents, teams of agents and workflows of
-- both for chat clients, over PostgreSQL, Redis and the agno package.
--
-- Each request is one function of the state `World` (State): the rows that its session sees, the
-- rows that are committed, the Redis commands it sent and what it has streamed. A method that may
-- raise returns `Exec`, a result beside the state it leaves; `in_session` is the transaction that
-- app/db/session.py puts round a request. What lies outside of the repository is the parameter
-- `Outside`: the clock, agno's answers and streams, Redis' replies and locks, whether an insert fails,
-- croniter, tenacity, and the standard library's json, hmac and secrets.
--
-- Parts and files:
-- - Models, State: the rows (app/models), the tables and the session (app/db/session.py,
--   app/repositories/base.py). `Db.next_id` stands for uuid4.
-- - Errors, Exec: app/core/exceptions.py and its mapping to HTTP in app/main.py; exceptions.
-- - Settings, Clock: app/core/config.py; Python's datetime in UTC, to the second.
-- - Identity: app/core/identity.py, app/core/middleware.py and app/core/auth_context.py. Keys is the
--   cache of the realm's public keys, Tokens verifies a bearer token, and Requests is the middleware.
--   httpx, python-jose and the clock are parameters; requests are verified one after the other.
-- - Quota: app/services/quota_service.py and app/repositories/quota_repository.py. Policies selects
--   the policies in force, Buckets names the counters and their time to live, Service checks and
--   records.
-- - Workflow: app/services/workflow_execution_service.py, app/services/workflow_run_service.py and
--   app/agno_runtime/workflow_{context,runner,executor}.py. A run is a fixed sequence of steps,
--   each fed with the output of the one before.
--   Registry and Trigger are app/services/workflow_registry.py and
--   app/core/workflow_trigger_context.py.
-- - Schedule: app/schedule/service.py and app/schedule/ticker.py. Timing computes the next time,
--   Service keeps the rows, Ticker polls and fires. The lock of a schedule and croniter are answers
--   of the environment; run_ticker_loop is given the number of rounds until it is stopped.
-- - Plan: app/planning/service.py and app/execution/service.py. Building makes a plan, Targets finds
--   and runs the target of a step, Execution runs the steps with retries. The loop of retries has as
--   many rounds as attempts; when tenacity stops is an answer of the environment.
-- - Webhook: app/webhooks/service.py. Input verifies the signature and takes the workflow's input
--   from the body, Service keeps the rows and triggers. Parsing, dumping and digests are answers of
--   the environment.
-- - Capability: app/services/capability_service.py, app/repositories/capability_repository.py and
--   app/repositories/skill_repository.py. Assignments keeps the codes of the levels and of skills,
--   Service intersects them.
-- - Memory: app/services/memory_service.py, app/services/prompt_service.py,
--   app/services/model_service.py and their repositories. Service keeps the memories that agno
--   extracts, Prompts composes prompts and numbers versions, ModelChoice resolves a model.
-- - Validation: app/businessobjects/validator.py. Values compares the values of a record, Rules
--   evaluates rules and validates a record.
-- - Chat: app/services/chat_service.py, app/services/run_service.py, app/core/identity_context.py,
--   and of app/agno_runtime/engine.py what decides which team serves a request. Opening holds what
--   the branches share, Turn is handle_chat and Stream is handle_chat_stream; a cancellation
--   (app/core/run_control.py) is an answer of the environment at each poll.
-- - Engine: app/agno_runtime/engine.py, with app/uiaction, app/workflowskill and
--   app/agno_runtime/explicit_memory.py. Contexts resolves what a run is for, Tools and
--   Instructions are an agent's, Assembly builds the agent of them, Runs builds teams and has the
--   six runs. Actions is the plan of UI actions, Events and Streams turn agno's events into the
--   platform's, Metrics and Usage read the token usage, and Triggers and Remembering are the tools
--   that trigger a workflow and remember a fact. A run of agno's is a list of surfaced events and
--   calls of propose_ui_action. Chat uses the engine by way of `Outside`; Heard says what its loop
--   takes over from the engine's events.
-- - Knowledge: app/knowledge. Platform holds the configuration and the requests, Mapper reads the
--   responses, Service runs the skills of an agent. httpx and pydantic are parameters.
-- - Attachment: app/attachments/service.py. The file store and the extractors are parameters.
--
-- The services take app/agno_runtime/engine.py as a parameter: what a run answers or streams, and
-- `tool_rows`, the rows that its tools have written in the session of the caller. The streaming calls
-- of Chat and Workflow and the attempts of Plan follow these rows. The calls that do not stream,
-- handle_chat and the steps of run_workflow, do not: what tools write in the course of such a call is
-- left out, so what is proved there of the tables says nothing of those rows. In the streaming
-- endpoint of chat a poll of the cancel key may raise; the other commands of Redis are taken to answer.
--
-- Numbers are natural numbers, but for the integers of a validated record. Python's integers are
-- unbounded, so nothing wraps; token counts and prices are not negative, and the cost of a call is
-- counted in a smallest unit. Streams and lists are finite, so no fuel is needed but for the retries
-- of a plan step, which are given as many rounds as the step has attempts, and for the ticker, which
-- runs until it is stopped.
--
-- Not modelled: the adapters to agno's storage and memory and to the MCP gateway, the text of log
-- messages and tool descriptions, HTTP routes, schemas that only rename fields, database migrations,
-- and the UI context, observation and event services.
pub mod Shared
pub mod Errors
pub mod Exec
pub mod Models
pub mod Clock
pub mod Settings
pub mod State
pub mod Identity
pub mod Quota
pub mod Workflow
pub mod Schedule
pub mod Chat
pub mod Plan
pub mod Webhook
pub mod Capability
pub mod Memory
pub mod Validation
pub mod Knowledge
pub mod Attachment
pub mod Engine
