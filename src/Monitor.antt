-- ===== src/Monitor.antt =====
-- The monitor under backend/app/core and backend/app/workers.
pub mod Types
pub mod States
pub mod Infer
pub mod Severity
pub mod Changes
pub mod Diff
pub mod Normalizer
pub mod Canonical
pub mod Tables
pub mod Registry
pub mod Process
pub mod Runner
pub mod Changelog
pub mod Locking
