-- ===== src/Issue.antt =====
-- backend/internal/issue: issues, their status machine, their tree and the service over them.
pub mod Status
pub mod Machine
pub mod Stores
pub mod Access
pub mod Tree
pub mod Create
pub mod Update
pub mod Transition
pub mod Directory
pub mod Children
pub mod Postgres
pub mod Sorted
pub mod Forest
pub mod Refusals
pub mod Spellings
mod Samples
