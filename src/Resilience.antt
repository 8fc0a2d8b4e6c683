-- ===== src/Resilience.antt =====
-- agents/go/resilience: circuit breakers, and the guard that runs a tool call under one.
mod Tests
pub mod Circuit
pub mod Registry
pub mod Guard
