-- ===== src/PullRequest.antt =====
-- backend/internal/pr: pull requests, the issues that they name, and what a merge closes.
pub mod Keys
pub mod Service
pub mod Postgres
pub mod Distinct
mod Rows
pub mod States
mod Samples
