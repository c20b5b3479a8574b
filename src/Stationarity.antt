-- ===== src/Stationarity.antt =====
-- scripts/experiment-harness/evaluate-output-stationarity.py
pub mod Decimals
pub mod Fixed
pub mod Interval
pub mod Load
pub mod Latest
pub mod Window
pub mod Evaluate
pub mod LatestRun
pub mod Windows
pub mod Measured
pub mod Verdict
pub mod Applied
pub mod Geometry
mod Tests
