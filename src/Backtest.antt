-- ===== src/Backtest.antt =====
-- Backtests: the events and the queue that orders them.
pub mod Events
mod Examples
