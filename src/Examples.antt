-- ===== src/Examples.antt =====
-- Concrete tasks, tables and runs of every component, on which the theorems are applied.
pub mod Data
pub mod Tasks
pub mod Stored
pub mod Directories
pub mod Managed
pub mod Steps
pub mod Counted
pub mod Watched
pub mod Served
pub mod Configured
pub mod Requested
pub mod Audited
pub mod Listed
pub mod Rendered
pub mod Launched
pub mod Offered
pub mod Migrating
pub mod Defaulted
