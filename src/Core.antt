-- ===== src/Core.antt =====
-- core/: the service's lifecycle and its health checks.
pub mod Health
pub mod Service
