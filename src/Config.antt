-- ===== src/Config.antt =====
-- config/: sources of settings, the manager that merges them into a struct, and its container.
pub mod Values
pub mod Convert
pub mod Fields
pub mod Merge
pub mod Sources
pub mod Files
pub mod Types
pub mod Manager
pub mod Container
