-- ===== src/Quota.antt =====
-- app/services/quota_service.py and app/repositories/quota_repository.py: metering of chat turns.
-- `Policies` finds and ranks the policies, `Buckets` names the current period, and `Service`
-- checks and advances the counters; the other children prove what they guarantee.
pub mod Policies
pub mod Buckets
pub mod Service
pub mod Preference
pub mod Selection
pub mod Expiry
pub mod Enforcement
pub mod Recording
pub mod Accounting
pub mod Keeping
mod Examples
