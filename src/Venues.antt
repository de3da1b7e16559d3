-- ===== src/Venues.antt =====
-- Venues: who may trade where, and what a venue's interface is trusted to do.
pub mod Eligibility
pub mod Capability
pub mod Trusted
mod Examples
