-- ===== src/Jobs/Plans.antt =====
-- The plans of backend/app/jobs/lifecycle.py: from the rows that were read to mutations and events.
pub mod Blocks
pub mod Optimization
pub mod Outcome
pub mod Kept
pub mod Settled
pub mod Field
pub mod Failure
pub mod Aftermath
pub mod Assignment
pub mod Human
pub mod Runs
pub mod Accepts
pub mod Written
pub mod Decisions
pub mod Release
pub mod Window
