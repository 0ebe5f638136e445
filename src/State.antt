-- ===== src/State.antt =====
-- What a service call works on: the database session, the commands sent to Redis, what a stream
-- has yielded so far, and what the call takes from outside.
--
-- An SQLAlchemy session is two databases: `db`, as the session sees it after its flushes, and
-- `saved`, as it was last committed. `get_db` and `session_scope` are app/db/session.py.
mod Tables
mod Parameters
mod Rows
pub mod Durable
pub mod Examples
pub use Tables.*
pub use Parameters.*
pub use Rows.*
