-- ===== src/Chat.antt =====
-- Chat: one turn of a conversation, app/services/chat_service.py. `Runs` keeps the audit rows,
-- `Identity` decides whom a request is for, `Dispatch` which team serves it, `Merge` puts streamed
-- text together, and `Turn` and `Stream` are the two endpoints.
pub mod Runs
pub mod Identity
pub mod Merge
pub mod Dispatch
pub mod Opening
pub mod Turn
pub mod Stream
pub mod Durable
pub mod Ended
pub mod Polled
pub mod Opened
pub mod Outcome
pub mod Owner
pub mod Completed
pub mod Members
pub mod Serving
pub mod Examples
