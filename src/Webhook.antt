-- ===== src/Webhook.antt =====
-- The webhook directory: the management of Alchemy webhooks, the events that they deliver, and the
-- clean-up of monitored addresses.
pub mod Account
pub mod Management
pub mod Reconciliation
pub mod Signature
pub mod Events
pub mod Tests
