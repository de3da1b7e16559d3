-- ===== src/Live.antt =====
-- Live trading: the preflight before it starts, and the bindings of cross-venue preflights.
pub mod Preflight
pub mod Bindings
pub mod Hedge
pub mod Evidence
pub mod Orders
pub mod Exchange
pub mod Gateway
mod Examples
