-- ===== src/Workflow.antt =====
-- backend/internal/workflow: the change workflow, its gates and its artifacts.
pub mod Phases
pub mod Stores
pub mod Access
pub mod Guard
pub mod Advance
pub mod Gates
pub mod Archived
pub mod Moved
pub mod Postgres
pub mod Tasks
pub mod Parsed
pub mod Split
pub mod Run
pub mod Mapped
pub mod Ended
pub mod Manual
mod Samples
mod Splits
