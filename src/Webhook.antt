-- ===== src/Webhook.antt =====
-- Webhooks: an external caller triggers a workflow by the token of a webhook. `Input` checks the
-- signature and finds the workflow's input in the body, `Service` keeps the rows and triggers.
pub mod Input
pub mod Service
pub mod Gate
pub mod Examples
