-- ===== src/Memory.antt =====
-- Memories of users and the texts of prompts. `Service` keeps the memories that agno extracts,
-- `Prompts` composes the prompt of an agent, `ModelChoice` resolves its model.
pub mod Service
pub mod Unique
pub mod Synced
pub mod Prompts
pub mod Versions
pub mod ModelChoice
pub mod Choice
pub mod Examples
