-- ===== src/Property.antt =====
-- backend/internal/property: the property definitions of a project, and the values of its issues.
pub mod Values
pub mod Service
pub mod Postgres
pub mod Checked
pub mod Stored
mod Samples
