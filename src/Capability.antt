-- ===== src/Capability.antt =====
-- Capabilities: which tools an agent may use. `Assignments` keeps the codes that are assigned at
-- the levels, `Service` intersects them.
pub mod Assignments
pub mod Skills
pub mod Service
pub mod Effective
pub mod Examples
