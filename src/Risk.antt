-- ===== src/Risk.antt =====
-- Risk limits: the circuit breaker, position sizing and the entry checks of the risk manager.
pub mod Breaker
pub mod Models
pub mod Sizing
pub mod Manager
mod Examples
