-- ===== src/Sequence.antt =====
-- scripts/experiment-harness/prompt12-six-transition-orchestrator.py
pub mod Plan
pub mod Parse
pub mod Evaluate
pub mod Outcome
pub mod ParseLaws
pub mod Identity
pub mod Run
mod Tests
