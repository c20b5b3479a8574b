-- ===== src/Transaction.antt =====
-- scripts/experiment-harness/prompt12r-validate-transaction-transition.py
pub mod State
pub mod Record
pub mod Invariants
pub mod Validator
pub mod Graph
pub mod Step
pub mod WellFormed
pub mod Continuity
pub mod History
pub mod Trigger
pub mod Outcome
mod Tests
