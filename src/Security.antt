-- ===== src/Security.antt =====
-- backend/src/security: what stands in front of the service and of the chains' endpoints.
pub mod CircuitBreaker
pub mod IpThrottle
