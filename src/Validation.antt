-- ===== src/Validation.antt =====
-- Validation of strategies: the splits of the observations in time.
pub mod Splits
mod Examples
