-- ===== src/Observability.antt =====
-- observability/: the probes of a service's health.
pub mod Probes
