-- ===== src/Plan.antt =====
-- Ad-hoc plans: `Building` makes a plan of the steps that a caller lists, `Targets` finds and runs
-- the agent or team of a step, `Execution` runs a plan with retries. The other children prove what
-- they guarantee.
pub mod Building
pub mod Targets
pub mod Execution
pub mod Retries
pub mod Outcome
pub mod Unreachable
pub mod Examples
