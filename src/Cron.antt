-- ===== src/Cron.antt =====
-- backend/internal/cronexpr/cronexpr.go: cron expressions and their next fire times.
pub mod Calendar
pub mod Schedule
pub mod Parse
pub mod Fields
pub mod Selection
pub mod Steps
pub mod Skips
pub mod Rounds
pub mod Next
mod Samples
