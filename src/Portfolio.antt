-- ===== src/Portfolio.antt =====
-- Positions and the cash ledger of a linear perpetual simulation.
pub mod Position
pub mod Ledger
mod Examples
