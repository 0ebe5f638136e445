-- ===== src/Validation.antt =====
-- The rules of business objects. `Values` compares the values of a record, `Rules` evaluates a
-- rule and validates a record.
pub mod Values
pub mod Rules
pub mod Chains
pub mod Valid
pub mod Examples
