-- ===== src/Backends.antt =====
-- internal/dataplane/backends: the circuit breaker in front of each backend.
pub mod Breaker
