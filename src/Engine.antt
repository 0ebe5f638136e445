-- ===== src/Engine.antt =====
-- app/agno_runtime/engine.py: how a run of agno's becomes a stream of platform events, with the
-- services that give an agent its tools. `Actions`, `Metrics`, `Events` and `Streams` are the run;
-- the other children prove what they guarantee.
pub mod Actions
pub mod Metrics
pub mod Dedupe
pub mod Events
pub mod Streams
pub mod Halves
pub mod Usage
pub mod Answers
pub mod Contexts
pub mod Tools
pub mod Instructions
pub mod Assembly
pub mod Runs
pub mod Heard
pub mod Plans
pub mod Given
pub mod Grants
pub mod Allowed
pub mod Remembering
pub mod Triggers
pub mod Fixtures
mod Examples
