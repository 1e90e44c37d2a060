-- ===== src/Gateway.antt =====
-- The gateway's guards on requests (src/gateway, src/api/middleware).
pub mod Requests
pub mod RateLimit
pub mod CircuitBreaker
pub mod CreditGate
mod Tests
