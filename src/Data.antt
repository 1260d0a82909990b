-- ===== src/Data.antt =====
-- data/: migrations of a database.
pub mod Database
pub mod Migration
pub mod Seeder
pub mod Files
