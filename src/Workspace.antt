-- ===== src/Workspace.antt =====
-- backend/internal/workspace: members of a workspace, their roles, and invitations.
pub mod Emails
pub mod Service
pub mod Postgres
mod Roles
pub mod Owners
pub mod Redeemed
pub mod Invited
mod Samples
