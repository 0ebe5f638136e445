-- ===== src/Schedule.antt =====
-- Schedules: workflows that run by themselves at a fixed interval or by a cron expression.
-- `Timing` computes the next time, `Service` keeps the rows, `Ticker` polls and fires. The other
-- children prove what they guarantee.
pub mod Timing
pub mod Service
pub mod Ticker
pub mod Due
pub mod Advance
pub mod Effects
pub mod Progress
pub mod Examples
