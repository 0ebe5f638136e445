-- ===== src/Workflow.antt =====
-- Workflows: a fixed sequence of agent and team steps, run one after the other.
-- `RunService` keeps the audit rows, `Context` hands each step's output to the next, `Runner`
-- executes one step, `Executor` all of them, and `Execution` and `Streaming` serve the two
-- endpoints. The other children prove what they guarantee.
pub mod Context
pub mod RunService
pub mod Call
pub mod Runner
pub mod Executor
pub mod Session
pub mod Execution
pub mod Steps
pub mod Rounds
pub mod Pipeline
pub mod Kept
pub mod Outcome
pub mod Transaction
pub mod Ownership
pub mod Streaming
pub mod Durable
pub mod Trigger
pub mod Registry
pub mod Numbering
pub mod Examples
