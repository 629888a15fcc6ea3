-- ===== src/Runtime.antt =====
-- The runtime contract guard, app/runtime/.
pub mod Documents
pub mod Canonical
pub mod Classifier
pub mod Models
pub mod Database
pub mod Registry
pub mod Subscriptions
pub mod Webhook
pub mod Outbox
pub mod Service
pub mod System
pub mod Events
