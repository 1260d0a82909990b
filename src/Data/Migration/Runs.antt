-- ===== src/Data/Migration/Runs.antt =====
-- data/migration.go: which migrations Apply and Rollback run, and in which order.
pub mod Applying
pub mod Pending
pub mod Settled
pub mod Undone
