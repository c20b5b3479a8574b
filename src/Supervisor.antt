-- ===== src/Supervisor.antt =====
-- scripts/experiment-harness/prompt12-bounded-orchestration-supervisor.py
pub mod Host
pub mod Phase
pub mod Live
pub mod Logic
pub mod Recorded
pub mod Gate
pub mod Counts
pub mod Fire
pub mod Final
mod Tests
