-- ===== src/Strategies.antt =====
-- Strategies: what data each of them needs of its venues.
pub mod Capabilities
