-- ===== src/Http.antt =====
-- http/: the middleware of the HTTP server.
pub mod Middleware
