-- ===== src/Collab.antt =====
-- backend/internal/collab: comments, attachments, metadata and subscribers of issues.
pub mod Stores
pub mod Comments
pub mod Attachments
pub mod Entries
pub mod Postgres
mod Reads
mod Told
pub mod Threads
pub mod Files
mod Samples
