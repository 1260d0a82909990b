-- ===== src/Security.antt =====
-- security/: local policies and role-based access control.
pub mod Values
pub mod Pattern
pub mod LocalPolicy
pub mod Rbac
pub mod Middleware
pub mod Jwks
pub mod Authentication
pub mod Interceptors
