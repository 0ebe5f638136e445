-- ===== src/Engine/Allowed.antt =====
-- Which tools the assembled agents get.
use aiplatform.Capability.Effective.{Effective}
