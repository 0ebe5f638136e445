-- ===== src/Models.antt =====
-- The rows of the database, app/models/*.py: one record for each ORM class that the services
-- read or write, with the columns that they use. Identifiers (UUIDs) are numbers, and a time is
-- a number of seconds since the epoch, in UTC.
mod Webhooks
mod Hierarchy
mod Workflows
mod Chats
mod Quotas
mod Plans
mod Capabilities
mod Memories
mod Skills
pub use Hierarchy.*
pub use Workflows.*
pub use Chats.*
pub use Quotas.*
pub use Plans.*
pub use Webhooks.*
pub use Capabilities.*
pub use Memories.*
pub use Skills.*
