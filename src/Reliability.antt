-- ===== src/Reliability.antt =====
-- src/infrastructure/reliability: retries with backoff, and the circuit breaker.
pub mod Backoff
pub mod Circuit
