-- ===== src/Automation.antt =====
-- backend/internal/automation: webhooks, autopilots, and the scheduler that fires them.
pub mod Stores
pub mod Service
pub mod Scheduler
pub mod Hook
pub mod Postgres
pub mod Ticks
pub mod Hopeless
pub mod Signatures
pub mod Events
mod Samples
