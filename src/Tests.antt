-- ===== src/Tests.antt =====
-- Runs of the definitions and the theorems at concrete data, for app/, app/workers/ and backend/app/.
mod Schemas
mod Registry
mod Delivery
mod Core
mod Service
mod System
mod Outbox
mod Monitor
mod Runner
mod Locking
mod Changelog
mod Documents
