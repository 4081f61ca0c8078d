-- ===== src/Squad.antt =====
-- backend/internal/squad: squads, their leaders and their rosters.
pub mod Service
pub mod Postgres
pub mod Roster
mod Samples
