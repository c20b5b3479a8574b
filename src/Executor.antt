-- ===== src/Executor.antt =====
-- scripts/experiment-harness/prompt12-precontrol-trigger-executor.py
pub mod Report
pub mod Checks
pub mod Main
pub mod Laws
pub mod Admitted
pub mod Unreported
mod Tests
