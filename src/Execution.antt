-- ===== src/Execution.antt =====
-- Order execution: the two-leg state machine of a cross-venue trade.
pub mod Leg
pub mod Orders
pub mod Simulator
mod Examples
mod SimulatorExamples
