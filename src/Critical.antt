-- ===== src/Critical.antt =====
-- scripts/experiment-harness/prompt12-t2-critical-section.py
pub mod Program
pub mod Plan
pub mod Section
pub mod System
pub mod Guard
pub mod Phases
pub mod Once
mod Tests
