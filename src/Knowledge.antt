-- ===== src/Knowledge.antt =====
-- app/knowledge: retrieval from Knowledge Platforms, which agents use by way of their skills.
-- `Platform` is the client with its configuration, `Mapper` reads the responses, and `Service`
-- runs the skills of an agent; the other children prove what they guarantee.
pub mod Platform
pub mod Mapper
pub mod Service
pub mod Failures
pub mod Examples
