-- ===== src/Paper.antt =====
-- services/paper_trading: the deterministic paper broker.
pub mod Models
pub mod Account
pub mod Broker
pub mod Matching
mod Examples
