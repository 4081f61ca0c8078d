-- ===== src/Agent.antt =====
-- backend/internal/agent: the queue of the agents' runs, and what puts runs into it.
pub mod Runs
pub mod Queue
pub mod Claims
pub mod Steps
pub mod Ends
pub mod Logs
pub mod Trigger
pub mod Mention
pub mod Mentioned
pub mod Finished
mod Samples
mod Calls
