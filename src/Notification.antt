-- ===== src/Notification.antt =====
-- backend/internal/notification: who is told of an event, the mention syntax, and the due-date scan.
pub mod Fanout
pub mod Mentions
pub mod Due
pub mod Postgres
pub mod Delivery
pub mod Scans
pub mod Syntax
mod Samples
