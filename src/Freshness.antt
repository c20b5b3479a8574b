-- ===== src/Freshness.antt =====
-- scripts/experiment-harness/prompt12-precontrol-freshness.py
pub mod Policy
pub mod Rows
pub mod Main
pub mod Samples
pub mod Limit
pub mod Admission
pub mod Gates
pub mod Handover
mod Tests
